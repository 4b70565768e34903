-- ===== src/Count/Total.antt =====
-- The runs of `count_vote`: its `unwrap`s and slices, on any bytes.
use ckb_vote_poc.Base.{
  ℕ, ◌+◌, ◌≡◌, refl, ap, subst, ◌∙◌, inl, inr, Bool, Bool-cases, true, false, Option, Option-cases,
  none, some, List, [], ◌∷◌, length, take, get_elem?, bytes_eq, ◌==◌, Result, ok, err, panic,
  >>=-eq-ok, ok_inj, Returns, Succeeds, Succeeds-bind, NoPanic, NoPanic-bind, All, arith,
}
use ckb_vote_poc.Chain.{
  Bytes, Packages, NumberLaws, VerifierLaws, VerificationError, Script, CellOutput, RawTransaction,
  Transaction, Block,
}
use ckb_vote_poc.Molecule.Vote
use ckb_vote_poc.Molecule.Proposal
use ckb_vote_poc.Molecule.Typed.{vote_parts, proposal_parts, uint16_vec_items}
use ckb_vote_poc.Molecule.Safety.{vote-NoPanic, proposal-NoPanic}
use ckb_vote_poc.Count.Read.{
  little_endian, from_le_bytes, ok_option, Terms, read_indices, read_terms, read_ballot,
}
use ckb_vote_poc.Count.Find.{find_in_outputs, find_in_transactions, find_proposal}
use ckb_vote_poc.Count.{
  State, init, VoteResult, spend_inputs, is_vote_script, output_ballot, record_outputs,
  count_transaction, count_transactions, count_blocks, count_proposal, count_vote, tally,
  decide_passed,
}

from_le_bytes-sized :
    (size : ℕ) (slice : Bytes)
    → length slice ≡ size
    → from_le_bytes size slice ≡ ok (little_endian slice)
unfolding from_le_bytes
from_le_bytes-sized size slice h = let e : (length slice == size) ≡ true = ground arith in rw e refl

read_indices-Succeeds :
    (items : List Bytes) → All (λ item. length item ≡ 2) items → Succeeds (read_indices items)
unfolding read_indices from_le_bytes
read_indices-Succeeds [] p = ([], refl)
read_indices-Succeeds (item ∷ items) (p, ps) =
    let (rest, e) = read_indices-Succeeds items ps in
    let sized : (length item == 2) ≡ true = ground arith in
    (little_endian item ∷ rest, rw (sized, e) refl)

ok_option-cases :
    (run : Result VerificationError Bytes)
    → NoPanic run
    → Returns (λ found. (a : Bytes) → found ≡ some a → run ≡ ok a) (ok_option run)
ok_option-cases (ok a) p = (some a, refl, λ b e. let same : a ≡ b = cc e in ap ok same)
ok_option-cases (err x) p = (none, refl, λ b e. cc e)
ok_option-cases panic p = elim p [ ]

first_byte : (slice : Bytes) → length slice ≡ 1 → (byte : ℕ) × (get_elem? slice 0 ≡ some byte)
first_byte [] h = absurd (omega arith)
first_byte (byte ∷ rest) h = (byte, refl)

module _ (P : Packages) (L : NumberLaws P) (V : VerifierLaws P) where
  read_ballot-Succeeds :
      (vote : Bytes) (compatible : Bool)
      → Vote.verify P vote compatible ≡ ok tt
      → Succeeds (read_ballot P vote)
  unfolding read_ballot
  read_ballot-Succeeds vote compatible h =
      let ((value, e₁, p₁), (shannon, e₂, p₂), (indices, e₃, p₃)) =
        vote_parts P L vote compatible h in
      let (direction, e₄) = first_byte value (V.byte_size value compatible p₁) in
      let amount = from_le_bytes-sized 8 shannon (V.uint64_size shannon compatible p₂) in
      let (items, e₅, sized) = uint16_vec_items P L indices compatible p₃ in
      let (list, e₆) = read_indices-Succeeds items sized in
      (
        record { direction = direction; amount = little_endian shannon; dao_index = list },
        rw (e₁, e₄, e₂, amount, e₃, e₅, e₆) refl,
      )

  read_terms-Succeeds :
      (proposal : Bytes) (compatible : Bool)
      → Proposal.verify P proposal compatible ≡ ok tt
      → Succeeds (read_terms P proposal)
  unfolding read_terms
  read_terms-Succeeds proposal compatible h =
      let ((window, e₁, p₁), (code, e₂, p₂), (type, e₃, p₃), d, r, a, (minimal, e₄, p₄)) =
        proposal_parts P L proposal compatible h in
      let requirement = from_le_bytes-sized 8 minimal (V.uint64_size minimal compatible p₄) in
      let duration = from_le_bytes-sized 4 window (V.uint32_size window compatible p₁) in
      (
        record {
          vote_code_hash = code;
          vote_hash_type = type;
          minimal_req = little_endian minimal;
          duration = little_endian window;
        },
        rw (e₂, e₃, e₄, requirement, e₁, duration) refl,
      )

  parsed_vote :
      (cell vote : Bytes)
      → Vote.from_compatible_slice P cell ≡ ok vote
      → Vote.verify P vote true ≡ ok tt
  unfolding Vote.from_compatible_slice
  parsed_vote cell vote h =
      let (u, e, h₁) = >>=-eq-ok (Vote.verify P cell true) _ h in
      subst (λ slice. Vote.verify P slice true ≡ ok tt) (ok_inj h₁) e

  parsed_proposal :
      (cell proposal : Bytes)
      → Proposal.from_compatible_slice P cell ≡ ok proposal
      → Proposal.verify P proposal true ≡ ok tt
  unfolding Proposal.from_compatible_slice
  parsed_proposal cell proposal h =
      let (u, e, h₁) = >>=-eq-ok (Proposal.verify P cell true) _ h in
      subst (λ slice. Proposal.verify P slice true ≡ ok tt) (ok_inj h₁) e

  vote_from_slice-NoPanic : (cell : Bytes) → NoPanic (Vote.from_compatible_slice P cell)
  unfolding Vote.from_compatible_slice
  vote_from_slice-NoPanic cell =
      NoPanic-bind (Vote.verify P cell true) _ (vote-NoPanic P L V true cell) λ u e. tt

  proposal_from_slice-NoPanic : (cell : Bytes) → NoPanic (Proposal.from_compatible_slice P cell)
  unfolding Proposal.from_compatible_slice
  proposal_from_slice-NoPanic cell =
      NoPanic-bind (Proposal.verify P cell true) _ (proposal-NoPanic P L V true cell) λ u e. tt

  output_ballot-Succeeds :
      (terms : Terms) (tag : Bytes) (data_ : List Bytes) (j : ℕ) (output : CellOutput)
      → Succeeds (output_ballot P terms tag data_ j output)
  unfolding output_ballot
  output_ballot-Succeeds terms tag data_ j output = elim (Option-cases output.type_) [
    | inl e ↦ (none, rw e refl)
    | inr (script, e) ↦ elim (Bool-cases (is_vote_script P terms tag script)) [
      | inr other ↦ (none, rw (e, other) refl)
      | inl votes ↦ elim (Option-cases (get_elem? data_ j)) [
        | inl missing ↦ (none, rw (e, votes, missing) refl)
        | inr (cell, found) ↦
            let (parsed, e₁, from) =
              ok_option-cases (Vote.from_compatible_slice P cell) (vote_from_slice-NoPanic cell) in
            elim (Option-cases parsed) [
              | inl bad ↦ (none, rw (e, votes, found, e₁, bad) refl)
              | inr (vote, good) ↦
                  let (ballot, read) =
                    read_ballot-Succeeds vote true (parsed_vote cell vote (from vote good)) in
                  (some ballot, rw (e, votes, found, e₁, good, read) refl)
            ]
      ]
    ]
  ]

  record_outputs-Succeeds :
      (terms : Terms) (tag : Bytes) (raw : RawTransaction) (j : ℕ) (outputs : List CellOutput)
      (s : State)
      → Succeeds (record_outputs P terms tag raw j outputs s)
  unfolding record_outputs
  record_outputs-Succeeds terms tag raw j [] s = (s, refl)
  record_outputs-Succeeds terms tag raw j (output ∷ outputs) s =
      Succeeds-bind (output_ballot P terms tag raw.outputs_data j output) _
        (output_ballot-Succeeds terms tag raw.outputs_data j output)
        λ cast e. record_outputs-Succeeds terms tag raw (j + 1) outputs _

  count_transactions-Succeeds :
      (terms : Terms) (tag : Bytes) (txs : List Transaction) (s : State)
      → Succeeds (count_transactions P terms tag txs s)
  unfolding count_transactions count_transaction
  count_transactions-Succeeds terms tag [] s = (s, refl)
  count_transactions-Succeeds terms tag (tx ∷ txs) s =
      Succeeds-bind
        (record_outputs P terms tag tx.raw 0 tx.raw.outputs (spend_inputs P tx.raw.inputs s)) _
        (record_outputs-Succeeds terms tag tx.raw 0 tx.raw.outputs _)
        λ s' e. count_transactions-Succeeds terms tag txs s'

  pub count_blocks-Succeeds :
      (terms : Terms) (tag : Bytes) (blocks : List Block) (s : State)
      → Succeeds (count_blocks P terms tag blocks s)
  unfolding count_blocks
  count_blocks-Succeeds terms tag [] s = (s, refl)
  count_blocks-Succeeds terms tag (block ∷ blocks) s =
      Succeeds-bind (count_transactions P terms tag block.transactions s) _
        (count_transactions-Succeeds terms tag block.transactions s)
        λ s' e. count_blocks-Succeeds terms tag blocks s'

  -- What the search for the proposal finds was verified.
  abbrev IsFound : Option Bytes → Type 0
  IsFound found =
      (proposal : Bytes) → found ≡ some proposal → Proposal.verify P proposal true ≡ ok tt

  find_in_outputs-Returns :
      (script : Script) (data_ : List Bytes) (i : ℕ) (outputs : List CellOutput)
      → Returns
          (λ found. (o : Option Bytes) → found ≡ some o → IsFound o)
          (find_in_outputs P script data_ i outputs)
  unfolding find_in_outputs
  find_in_outputs-Returns script data_ i [] = (none, refl, λ o e. cc e)
  find_in_outputs-Returns script data_ i (output ∷ outputs) =
      let (rest, e', p) = find_in_outputs-Returns script data_ (i + 1) outputs in
      elim (Option-cases output.type_) [
        | inl e ↦ (rest, rw (e, e') refl, p)
        | inr (type, e) ↦
            elim (Bool-cases (bytes_eq (P.script_slice type) (P.script_slice script))) [
              | inr other ↦ (rest, rw (e, other, e') refl, p)
              | inl same ↦ elim (Option-cases (get_elem? data_ i)) [
                | inl missing ↦ (some none, rw (e, same, missing) refl, λ o q proposal r. cc (q, r))
                | inr (cell, found) ↦
                    let (parsed, e₁, from) =
                      ok_option-cases (Proposal.from_compatible_slice P cell)
                        (proposal_from_slice-NoPanic cell) in
                    (
                      some parsed,
                      rw (e, same, found, e₁) refl,
                      λ o q proposal r.
                          parsed_proposal cell proposal
                            (from proposal (let back : parsed ≡ o = cc q in back ∙ r)),
                    )
              ]
            ]
      ]

  find_in_transactions-Returns :
      (script : Script) (txs : List Transaction)
      → Returns IsFound (find_in_transactions P script txs)
  unfolding find_in_transactions
  find_in_transactions-Returns script [] = (none, refl, λ p e. cc e)
  find_in_transactions-Returns script (tx ∷ txs) =
      let (rest, e', p) = find_in_transactions-Returns script txs in
      let (found, e, q) = find_in_outputs-Returns script tx.raw.outputs_data 0 tx.raw.outputs in
      elim (Option-cases found) [
        | inl none_here ↦ (rest, rw (e, none_here) e', p)
        | inr (o, here) ↦ (o, rw (e, here) refl, q o here)
      ]

  find_proposal-Returns :
      (blocks : List Block) (script : Script) → Returns IsFound (find_proposal P blocks script)
  unfolding find_proposal
  find_proposal-Returns [] script = (none, refl, λ p e. cc e)
  find_proposal-Returns (block ∷ blocks) script =
      find_in_transactions-Returns script block.transactions

  count_proposal-Succeeds :
      (proposal : Bytes) (blocks : List Block) (script : Script)
      → Proposal.verify P proposal true ≡ ok tt
      → Succeeds (count_proposal P proposal blocks script)
  unfolding count_proposal
  count_proposal-Succeeds proposal blocks script h =
      Succeeds-bind (read_terms P proposal) _ (read_terms-Succeeds proposal true h) λ terms e.
        elim (Bool-cases (length blocks == terms.duration + 1)) [
          | inr other ↦ (
            record { proposal = proposal; yes_vote = 0; no_vote = 0; passed = false },
            rw other refl,
          )
          | inl same ↦
              let (s, counted) =
                count_blocks-Succeeds terms (take 20 (P.blake2b (P.script_slice script))) blocks
                  init in
              let totals = tally 0 0 s.votes in
              (
                record {
                  proposal = proposal;
                  yes_vote = totals.0;
                  no_vote = totals.1;
                  passed = decide_passed totals.0 totals.1 terms.minimal_req;
                },
                rw (same, counted) refl,
              )
        ]

  -- If the packages' verifiers return and numbers follow the molecule format, `count_vote` returns a
  -- result for all blocks that were read and every script, whatever bytes the cells hold.
  pub count_vote_total :
      (blocks : List Block) (script : Script)
      → (r : VoteResult) × (count_vote P blocks script ≡ ok r)
  unfolding count_vote
  count_vote_total blocks script =
      let (found, e, p) = find_proposal-Returns blocks script in
      elim (Option-cases found) [
        | inl missing ↦ (
          record { proposal = Proposal.default_value; yes_vote = 0; no_vote = 0; passed = false },
          rw (e, missing) refl,
        )
        | inr (proposal, here) ↦
            let (r, counted) = count_proposal-Succeeds proposal blocks script (p proposal here) in
            (r, rw (e, here) counted)
      ]
