-- ===== src/Settlement.antt =====
-- The proposal type script and the guest program together: what the consumption of a proposal cell
-- shows when the proofs of the guest program are sound.
use ckb_vote_poc.Base.{
  ℕ, ◌-◌, ◌<◌, ◌^◌, ◌≡◌, refl, sym, ap, subst, ◌∙◌, ◌⊎◌, inl, inr, Bool, true, false, some, List,
  [], ◌∷◌, length, get_elem?, if◌then◌else◌, ok, ok_inj, arith,
}
use ckb_vote_poc.Chain.{Bytes, Packages, NumberLaws, Script, Header, Block}
use ckb_vote_poc.Molecule.PublicValues
use ckb_vote_poc.Molecule.ProposalWitness
use ckb_vote_poc.Molecule.Fields.{public_values_fields}
use ckb_vote_poc.Molecule.Sizes.{length-last_field, proposal_witness-bound}
use ckb_vote_poc.Syscalls.{group_input, Cell, Context}
use ckb_vote_poc.Integrity.{header_hash}
use ckb_vote_poc.Integrity.Laws.{IsIntact}
use ckb_vote_poc.Count.{VoteResult, count_vote}
use ckb_vote_poc.ProposalScript.{Sp1, vk_hash_hex, run}
use ckb_vote_poc.ProposalScript.Laws.{IsSettlement}
use ckb_vote_poc.ProposalScript.Run.{Created, proposal_run_iff}
use ckb_vote_poc.Guest.{public_values, main, to_le_bytes}
use ckb_vote_poc.Guest.Laws.{main-Committed}

pub flag_is_one : (b : Bool) → get_elem? {A = ℕ} ((if b then 1 else 0) ∷ []) 0 ≡ some 1 → b ≡ true
flag_is_one true e = refl
flag_is_one false e = absurd (omega (arith, one))
  where
    one : ◌≡◌ {A = ℕ} 0 1
    one = cc e

module _ (P : Packages) (sp1 : Sp1) (c : Context) where
  -- Under the key in the script's arguments the verifier only accepts what the guest program
  -- commits on some input.
  abbrev pub Sound : Script → Type 0
  Sound script =
      (proof pv : Bytes)
      → sp1.plonk_verify proof pv (vk_hash_hex P sp1 c script.args) sp1.plonk_vk_bytes ≡ true
      → (args_bytes : Bytes) × (main P args_bytes ≡ ok pv)

  -- The vote on the proposal in the consumed cell passed, in intact blocks from the header of the
  -- first header dep to the header of the second.
  pub record Settled (script : Script) : Type 0 where
    pub cell : Cell
    pub start_header : Header
    pub end_header : Header
    pub blocks : List Block
    pub witness_roots : List Bytes
    pub first_block : Block
    pub last_block : Block
    pub result : VoteResult
    pub consumed : get_elem? (c.cells group_input) 0 ≡ some cell
    pub first_dep : get_elem? c.header_deps 0 ≡ some start_header
    pub second_dep : get_elem? c.header_deps 1 ≡ some end_header
    pub intact : IsIntact P blocks witness_roots
    pub first : get_elem? blocks 0 ≡ some first_block
    pub last : get_elem? blocks (length blocks - 1) ≡ some last_block
    pub start_hash : header_hash P first_block.header ≡ header_hash P start_header
    pub end_hash : header_hash P last_block.header ≡ header_hash P end_header
    pub counted : count_vote P blocks (P.read_script (P.script_slice script)) ≡ ok result
    pub same_proposal : result.proposal ≡ cell.data_
    pub passed : result.passed ≡ true

  settlement-bound :
      NumberLaws P → (script : Script) (s : IsSettlement P sp1 c script) → length s.pv < 2 ^ 32
  unfolding ProposalWitness.public_values
  settlement-bound L script s =
      let smaller = length-last_field P L 2 s.proposal_witness s.pv s.pv_read in
      let bound = proposal_witness-bound P L s.raw_witness s.proposal_witness s.parsed in
      omega arith

  settled :
      NumberLaws P → (script : Script) → Sound script → IsSettlement P sp1 c script → Settled script
  unfolding public_values
  settled L script sound s =
      let (args_bytes, run) = sound (P.bytes_raw_data s.proof) s.pv s.verified in
      let g = main-Committed P args_bytes s.pv run in
      let fields =
        public_values_fields P L g.result.proposal (header_hash P g.first_block.header)
          (header_hash P g.last_block.header) g.proposal_script
          ((if g.result.passed then 1 else 0) ∷ []) (to_le_bytes 8 g.result.yes_vote)
          (to_le_bytes 8 g.result.no_vote)
          (subst (λ pv. length pv < 2 ^ 32) g.values (settlement-bound L script s)) in
      let proposal : g.result.proposal ≡ s.shows.cell.data_ =
        ok_inj (sym fields.0 ∙ ap (PublicValues.proposal P) (sym g.values) ∙ s.shows.proposal) in
      let start : header_hash P g.first_block.header ≡ header_hash P s.shows.start_header =
        ok_inj (
          sym fields.1
          ∙ ap (PublicValues.start_block_hash P) (sym g.values)
          ∙ s.shows.start_hash) in
      let end : header_hash P g.last_block.header ≡ header_hash P s.shows.end_header =
        ok_inj
          (sym fields.2 ∙ ap (PublicValues.end_block_hash P) (sym g.values) ∙ s.shows.end_hash) in
      let slice : g.proposal_script ≡ P.script_slice script = ok_inj (
        sym fields.3 ∙ ap (PublicValues.proposal_script P) (sym g.values) ∙ s.shows.script_slice) in
      let flag : ((if g.result.passed then 1 else 0) ∷ []) ≡ s.shows.passed =
        ok_inj (sym fields.4 ∙ ap (PublicValues.passed P) (sym g.values) ∙ s.shows.passed_read) in
      record {
        cell = s.shows.cell;
        start_header = s.shows.start_header;
        end_header = s.shows.end_header;
        blocks = g.blocks;
        witness_roots = g.witness_roots;
        first_block = g.first_block;
        last_block = g.last_block;
        result = g.result;
        consumed = s.shows.consumed;
        first_dep = s.shows.first_dep;
        second_dep = s.shows.second_dep;
        intact = g.intact;
        first = g.first;
        last = g.last;
        start_hash = start;
        end_hash = end;
        counted =
            subst (λ bytes. count_vote P g.blocks (P.read_script bytes) ≡ ok g.result) slice
              g.counted;
        same_proposal = proposal;
        passed = flag_is_one g.result.passed (ap (λ l. get_elem? l 0) flag ∙ s.shows.is_one);
      }

  -- If the encoding of numbers follows the molecule format, and the verifier is sound for the guest
  -- program under the key in the script's arguments, then whenever the proposal type script
  -- succeeds, either a cell of its type is created and none consumed, or the vote on the proposal
  -- in the consumed cell passed: `count_vote` says so of intact blocks whose first and last header
  -- have the hashes of the first two header deps.
  pub run-Settled :
      NumberLaws P
      → ((script : Script) → c.load_script ≡ some script → Sound script)
      → run P sp1 c ≡ ok tt
      → (script : Script) × (c.load_script ≡ some script)
        × (Created P sp1 c script ⊎ Settled script)
  run-Settled L sound h =
      let (script, loaded, n, outcome) = (proposal_run_iff P sp1 c).0 h in
      elim outcome [
        | inl (created, t) ↦ (script, loaded, inl created)
        | inr (gone, s) ↦ (script, loaded, inr (settled L script (sound script loaded) s))
      ]
