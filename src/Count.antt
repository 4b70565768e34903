-- ===== src/Count.antt =====
-- `find_proposal` and `count_vote` of crates/verification/src/lib.rs. The blocks are the list that
-- the `BlockVecReader` yields. `usize` has 64 bits, and the guest is built with wrapping
-- arithmetic (no `overflow-checks` in sp1/ckb-vote-verification/Cargo.toml).
pub mod Dict
pub mod Read
pub mod Find
pub mod History
pub mod Steps
pub mod Refine
pub mod Unique
pub mod Order
pub mod Passed
pub mod Tally
pub mod Meaning
pub mod Total
pub mod Ballots
use ckb_vote_poc.Base.{
  ℕ, ◌+◌, ◌-◌, ◌*◌, ◌%◌, ◌^◌, min, Bool, false, not, ◌&&◌, Option, none, some, List, [], ◌∷◌,
  length, take, get_elem?, ltb, ◌==◌, bytes_eq, if◌then◌else◌, Result, ok, ◌>>=◌,
}
use ckb_vote_poc.Chain.{
  Bytes, Packages, VerificationError, Script, CellInput, CellOutput, CellDep, RawTransaction,
  Transaction, Block,
}
use ckb_vote_poc.Molecule.Vote
use ckb_vote_poc.Molecule.Proposal
use ckb_vote_poc.Count.Dict.{Map, lookup, insert, remove}
use ckb_vote_poc.Count.Read.{Terms, Ballot, read_terms, read_ballot, ok_option}
use ckb_vote_poc.Count.Find.{find_proposal}

abbrev pub u64_max : ℕ
u64_max = 2 ^ 64 - 1

abbrev pub saturating_add : ℕ → ℕ → ℕ
saturating_add a b = min (a + b) u64_max

pub record VoteResult : Type 0 where
  pub proposal : Bytes
  pub yes_vote : ℕ
  pub no_vote : ℕ
  pub passed : Bool

-- `vote_map` and `dao_outpoint_to_voter`.
pub record State : Type 0 where
  pub votes : Map (ℕ × ℕ)
  pub deposits : Map Bytes

abbrev pub init : State
init = record { votes = []; deposits = [] }

-- `min_shannon` and `passed`. The product wraps.
unfoldable pub min_shannon : ℕ → ℕ
min_shannon minimal_req = minimal_req * 100000000 % 2 ^ 64

unfoldable pub decide_passed : ℕ → ℕ → ℕ → Bool
unfolding min_shannon
decide_passed yes_vote no_vote minimal_req =
    ltb no_vote yes_vote && ltb (min_shannon minimal_req) (saturating_add yes_vote no_vote)

-- The loop over `vote_map`.
unfoldable pub tally : ℕ → ℕ → Map (ℕ × ℕ) → ℕ × ℕ
tally yes_vote no_vote [] = (yes_vote, no_vote)
tally yes_vote no_vote ((voter, (direction, amount)) ∷ rest) =
    if direction == 1
    then tally (saturating_add yes_vote amount) no_vote rest
    else tally yes_vote (saturating_add no_vote amount) rest

module _ (P : Packages) where
  -- The loop over a transaction's inputs.
  unfoldable pub spend_inputs : List CellInput → State → State
  spend_inputs [] s = s
  spend_inputs (input ∷ inputs) s =
      let op_bytes = P.out_point_slice input.previous_output in
      spend_inputs inputs (elim (lookup op_bytes s.deposits) [
        | none ↦ s
        | some voter_lock_hash ↦ record {
          votes = remove voter_lock_hash s.votes;
          deposits = remove op_bytes s.deposits;
        }
      ])

  -- The loop over a vote's `dao_index`.
  unfoldable pub record_deposits : List CellDep → Bytes → List ℕ → Map Bytes → Map Bytes
  record_deposits cell_deps voter [] deposits = deposits
  record_deposits cell_deps voter (idx ∷ rest) deposits =
      record_deposits cell_deps voter rest (elim (get_elem? cell_deps idx) [
        | none ↦ deposits
        | some cell_dep ↦ insert (P.out_point_slice cell_dep.out_point) voter deposits
      ])

  -- The tests of an output's type script against the vote type script.
  unfoldable pub is_vote_script : Terms → Bytes → Script → Bool
  is_vote_script terms proposal_blake160 type_script =
      bytes_eq type_script.code_hash terms.vote_code_hash
      && bytes_eq type_script.hash_type terms.vote_hash_type
      && bytes_eq type_script.args proposal_blake160

  unfoldable pub record_vote : List CellDep → CellOutput → Ballot → State → State
  record_vote cell_deps output ballot s =
      let voter_lock_hash = P.blake2b (P.script_slice output.lock) in
      record {
        votes = insert voter_lock_hash (ballot.direction, ballot.amount) s.votes;
        deposits = record_deposits cell_deps voter_lock_hash ballot.dao_index s.deposits;
      }

  -- The vote that output `j` casts: `none` for each `continue`.
  unfoldable pub output_ballot :
      Terms → Bytes → List Bytes → ℕ → CellOutput → Result VerificationError (Option Ballot)
  output_ballot terms proposal_blake160 outputs_data j output = elim output.type_ [
    | none ↦ ok none
    | some type_script ↦
        if is_vote_script terms proposal_blake160 type_script
        then elim (get_elem? outputs_data j) [
          | none ↦ ok none
          | some cell ↦ (do
            parsed ← ok_option (Vote.from_compatible_slice P cell)
            elim parsed [
              | none ↦ ok none
              | some vote ↦ (do ballot ← read_ballot P vote; ok (some ballot))
            ])
        ]
        else ok none
  ]

  -- The loop over a transaction's outputs, from output `j` on.
  unfoldable pub record_outputs :
      Terms → Bytes → RawTransaction → ℕ → List CellOutput → State → Result VerificationError State
  record_outputs terms proposal_blake160 raw j [] s = ok s
  record_outputs terms proposal_blake160 raw j (output ∷ outputs) s = do
    cast ← output_ballot terms proposal_blake160 raw.outputs_data j output
    record_outputs terms proposal_blake160 raw (j + 1) outputs
        (elim cast [ none ↦ s | some ballot ↦ record_vote raw.cell_deps output ballot s ])

  unfoldable pub count_transaction :
      Terms → Bytes → Transaction → State → Result VerificationError State
  count_transaction terms proposal_blake160 tx s =
      record_outputs terms proposal_blake160 tx.raw 0 tx.raw.outputs (spend_inputs tx.raw.inputs s)

  unfoldable pub count_transactions :
      Terms → Bytes → List Transaction → State → Result VerificationError State
  count_transactions terms proposal_blake160 [] s = ok s
  count_transactions terms proposal_blake160 (tx ∷ txs) s = do
    s' ← count_transaction terms proposal_blake160 tx s
    count_transactions terms proposal_blake160 txs s'

  unfoldable pub count_blocks : Terms → Bytes → List Block → State → Result VerificationError State
  count_blocks terms proposal_blake160 [] s = ok s
  count_blocks terms proposal_blake160 (block ∷ blocks) s = do
    s' ← count_transactions terms proposal_blake160 block.transactions s
    count_blocks terms proposal_blake160 blocks s'

  unfoldable pub count_proposal : Bytes → List Block → Script → Result VerificationError VoteResult
  count_proposal proposal blocks proposal_script = do
    terms ← read_terms P proposal
    if not (length blocks == terms.duration + 1)
        then ok (record { proposal = proposal; yes_vote = 0; no_vote = 0; passed = false })
        else (do
          s ← count_blocks terms (take 20 (P.blake2b (P.script_slice proposal_script))) blocks init
          let totals = tally 0 0 s.votes
          ok (record {
            proposal = proposal;
            yes_vote = totals.0;
            no_vote = totals.1;
            passed = decide_passed totals.0 totals.1 terms.minimal_req;
          }))

  unfoldable pub count_vote : List Block → Script → Result VerificationError VoteResult
  count_vote blocks proposal_script = do
    found ← find_proposal P blocks proposal_script
    elim found [
      | none ↦
          ok (record {
            proposal = Proposal.default_value;
            yes_vote = 0;
            no_vote = 0;
            passed = false;
          })
      | some proposal ↦ count_proposal proposal blocks proposal_script
    ]
