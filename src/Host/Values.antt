-- ===== src/Host/Values.antt =====
-- What the guest commits on prepared arguments, and what the assertion on it shows.
use ckb_vote_poc.Base.{
  ◌-◌, ◌^◌, ◌<◌, ◌≡◌, sym, ap, subst, ◌∙◌, true, false, some, List, [], ◌∷◌, length, get_elem?,
  if◌then◌else◌, ok, unwrap, expect, >>=-eq-ok, unwrap-eq-ok, expect-eq-ok, ok_inj, arith,
}
use ckb_vote_poc.Chain.{Bytes, Packages, NumberLaws, BuilderLaws, VerificationError, Block}
use ckb_vote_poc.Molecule.GuestProgramArguments
use ckb_vote_poc.Molecule.PublicValues
use ckb_vote_poc.Molecule.Fields.{guest_program_arguments_fields, public_values_fields}
use ckb_vote_poc.Molecule.Sizes.{public_values-bound, guest_program_arguments-bound}
use ckb_vote_poc.Molecule.Shallow.{verify_block_vec}
use ckb_vote_poc.Integrity.{header_hash, verify_block_integrity}
use ckb_vote_poc.Integrity.Laws.{IsIntact, verify_block_integrity_iff}
use ckb_vote_poc.Count.{VoteResult, count_vote}
use ckb_vote_poc.Guest
use ckb_vote_poc.Guest.{read_blocks, public_values, to_le_bytes}
use ckb_vote_poc.Settlement.{flag_is_one}
use ckb_vote_poc.Host.{assert_passed}

module _ (P : Packages) where
  -- A count of the votes in the intact blocks of `data_` that was committed as `pv`.
  pub record Counted (data_ script pv : Bytes) : Type 0 where
    pub blocks : List Block
    pub witness_roots : List Bytes
    pub first_block : Block
    pub last_block : Block
    pub result : VoteResult
    pub blocks_read : read_blocks P data_ ≡ ok blocks
    pub intact : IsIntact P blocks witness_roots
    pub counted : count_vote P blocks (P.read_script script) ≡ ok result
    pub values :
        pv
        ≡ public_values P
            (header_hash P first_block.header)
            (header_hash P last_block.header)
            script
            result

  pub main-Counted :
      NumberLaws P
      → BuilderLaws P
      → (data_ roots script pv : Bytes)
      → Guest.main P (GuestProgramArguments.build P (P.build_bytes data_) roots script) ≡ ok pv
      → Counted data_ script pv
  unfolding Guest.main
  main-Counted L B data_ roots script pv h =
      let stdin = GuestProgramArguments.build P (P.build_bytes data_) roots script in
      let (args, e₁, h₁) = >>=-eq-ok (expect (GuestProgramArguments.from_slice P stdin)) _ h in
      let (same, small) = guest_program_arguments-bound P L stdin args (expect-eq-ok _ e₁) in
      let fields =
        guest_program_arguments_fields P L (P.build_bytes data_) roots script
          (subst (λ slice. length slice < 2 ^ 32) (sym same) small) in
      let (field, e₂, h₂) = >>=-eq-ok (GuestProgramArguments.blocks P args) _ h₁ in
      let given : P.bytes_raw_data field ≡ data_ =
        ap P.bytes_raw_data
          (ok_inj (sym e₂ ∙ ap (GuestProgramArguments.blocks P) (sym same) ∙ fields.0))
        ∙ B.raw_data_of_built data_ in
      let (u, e₃, h₃) =
        >>=-eq-ok
          (expect {E = VerificationError} (verify_block_vec P (P.bytes_raw_data field) false)) _
          h₂ in
      let (blocks, e₄, h₄) = >>=-eq-ok (read_blocks P (P.bytes_raw_data field)) _ h₃ in
      let (roots', e₅, h₅) = >>=-eq-ok (GuestProgramArguments.witness_root P args) _ h₄ in
      let (v, e₆, h₆) =
        >>=-eq-ok (expect (verify_block_integrity P blocks (P.read_byte32_vec roots'))) _ h₅ in
      let (first_block, e₇, h₇) = >>=-eq-ok (unwrap (get_elem? blocks 0)) _ h₆ in
      let (last_block, e₈, h₈) = >>=-eq-ok (unwrap (get_elem? blocks (length blocks - 1))) _ h₇ in
      let (script', e₉, h₉) = >>=-eq-ok (GuestProgramArguments.proposal_script P args) _ h₈ in
      let same_script : script' ≡ script =
        ok_inj (sym e₉ ∙ ap (GuestProgramArguments.proposal_script P) (sym same) ∙ fields.2) in
      let (result, e, h') = >>=-eq-ok (count_vote P blocks (P.read_script script')) _ h₉ in
      record {
        blocks = blocks;
        witness_roots = P.read_byte32_vec roots';
        first_block = first_block;
        last_block = last_block;
        result = result;
        blocks_read = subst (λ slice. read_blocks P slice ≡ ok blocks) given e₄;
        intact =
            (verify_block_integrity_iff P blocks (P.read_byte32_vec roots')).0 (expect-eq-ok _ e₆);
        counted = subst (λ s. count_vote P blocks (P.read_script s) ≡ ok result) same_script e;
        values =
            sym (ok_inj h')
            ∙ ap
                (λ s.
                  public_values P (header_hash P first_block.header)
                    (header_hash P last_block.header) s result)
                same_script;
      }

  -- The public values say passed only if the result does.
  pub assert_passed-public_values :
      NumberLaws P
      → (pv start_hash end_hash script : Bytes) (result : VoteResult)
      → pv ≡ public_values P start_hash end_hash script result
      → assert_passed P pv ≡ ok tt
      → result.passed ≡ true
  unfolding assert_passed public_values
  assert_passed-public_values L raw start_hash end_hash script result values h =
      let (pv, e₁, h₁) =
        >>=-eq-ok (expect {F = VerificationError} (PublicValues.from_slice P raw)) _ h in
      let (same, small) = public_values-bound P L raw pv (expect-eq-ok _ e₁) in
      let (part, e₂, h₂) = >>=-eq-ok (PublicValues.passed P pv) _ h₁ in
      let (flag, e₃, h₃) = >>=-eq-ok (unwrap (get_elem? part 0)) _ h₂ in
      let fields =
        public_values_fields P L result.proposal start_hash end_hash script
          ((if result.passed then 1 else 0) ∷ []) (to_le_bytes 8 result.yes_vote)
          (to_le_bytes 8 result.no_vote)
          (subst (λ slice. length slice < 2 ^ 32) (sym same ∙ values) small) in
      let built : ((if result.passed then 1 else 0) ∷ []) ≡ part =
        ok_inj (sym fields.4 ∙ ap (PublicValues.passed P) (sym values ∙ same) ∙ e₂) in
      let one : flag ≡ 1 = ground arith in
      flag_is_one result.passed (ap (λ l. get_elem? l 0) built ∙ unwrap-eq-ok _ e₃ ∙ ap some one)
