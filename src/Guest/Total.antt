-- ===== src/Guest/Total.antt =====
-- On which input the guest program commits public values.
use ckb_vote_poc.Base.{
  ℕ, ◌-◌, ◌<◌, ◌≡◌, ◌≢◌, refl, ◌↔◌, false, some, List, [], ◌∷◌, length, get_elem?, ok, >>=-eq-ok,
  expect, expect-eq-ok, Succeeds, ok_inj, arith, zero, suc, subst,
}
use ckb_vote_poc.Chain.{Bytes, Packages, NumberLaws, VerifierLaws, VerificationError, Block}
use ckb_vote_poc.Molecule.GuestProgramArguments
use ckb_vote_poc.Molecule.Typed.{guest_program_arguments_parts}
use ckb_vote_poc.Molecule.Shallow.{verify_block_vec}
use ckb_vote_poc.Integrity.{header_hash, verify_block_integrity}
use ckb_vote_poc.Integrity.Laws.{IsIntact, verify_block_integrity_iff}
use ckb_vote_poc.Count.Total.{count_vote_total}
use ckb_vote_poc.Guest.{read_blocks, public_values, main}

get-inside :
    (blocks : List Block) (i : ℕ)
    → i < length blocks
    → (block : Block) × (get_elem? blocks i ≡ some block)
get-inside [] i h = absurd (omega arith)
get-inside (block ∷ blocks) zero h = (block, refl)
get-inside (block ∷ blocks) (suc i) h = get-inside blocks i (omega arith)

nonempty-length : (blocks : List Block) → blocks ≢ [] → 0 < length blocks
nonempty-length [] h = absurd (h refl)
nonempty-length (block ∷ blocks) h = omega arith

module _ (P : Packages) where
  -- The arguments parse, and their blocks can be read and are intact.
  pub record IsAccepted (args_bytes : Bytes) : Type 0 where
    pub args : Bytes
    pub blocks_field : Bytes
    pub roots_field : Bytes
    pub blocks : List Block
    pub parsed : GuestProgramArguments.from_slice P args_bytes ≡ ok args
    pub field_read : GuestProgramArguments.blocks P args ≡ ok blocks_field
    pub verified : verify_block_vec P (P.bytes_raw_data blocks_field) false ≡ ok tt
    pub blocks_read : read_blocks P (P.bytes_raw_data blocks_field) ≡ ok blocks
    pub roots_read : GuestProgramArguments.witness_root P args ≡ ok roots_field
    pub intact : IsIntact P blocks (P.read_byte32_vec roots_field)

  main-IsAccepted : (args_bytes : Bytes) → Succeeds (main P args_bytes) → IsAccepted args_bytes
  unfolding main
  main-IsAccepted args_bytes (pv, h) =
      let (args, e₁, h₁) = >>=-eq-ok (expect (GuestProgramArguments.from_slice P args_bytes)) _ h in
      let (field, e₂, h₂) = >>=-eq-ok (GuestProgramArguments.blocks P args) _ h₁ in
      let (u, e₃, h₃) =
        >>=-eq-ok
          (expect {E = VerificationError} (verify_block_vec P (P.bytes_raw_data field) false)) _
          h₂ in
      let (blocks, e₄, h₄) = >>=-eq-ok (read_blocks P (P.bytes_raw_data field)) _ h₃ in
      let (roots, e₅, h₅) = >>=-eq-ok (GuestProgramArguments.witness_root P args) _ h₄ in
      let (v, e₆, h₆) =
        >>=-eq-ok (expect (verify_block_integrity P blocks (P.read_byte32_vec roots))) _ h₅ in
      record {
        args = args;
        blocks_field = field;
        roots_field = roots;
        blocks = blocks;
        parsed = expect-eq-ok _ e₁;
        field_read = e₂;
        verified = expect-eq-ok _ e₃;
        blocks_read = e₄;
        roots_read = e₅;
        intact =
            (verify_block_integrity_iff P blocks (P.read_byte32_vec roots)).0 (expect-eq-ok _ e₆);
      }

  module _ (L : NumberLaws P) (V : VerifierLaws P) where
    parsed-verify :
        (args_bytes args : Bytes)
        → GuestProgramArguments.from_slice P args_bytes ≡ ok args
        → GuestProgramArguments.verify P args false ≡ ok tt
    unfolding GuestProgramArguments.from_slice
    parsed-verify args_bytes args h =
        let (u, e, h₁) = >>=-eq-ok (GuestProgramArguments.verify P args_bytes false) _ h in
        subst (λ slice. GuestProgramArguments.verify P slice false ≡ ok tt) (ok_inj h₁) e

    IsAccepted-main : (args_bytes : Bytes) → IsAccepted args_bytes → Succeeds (main P args_bytes)
    unfolding main
    IsAccepted-main args_bytes a =
        let (field, roots, (script, e, p)) =
          guest_program_arguments_parts P L a.args false
            (parsed-verify args_bytes a.args a.parsed) in
        let some_block = nonempty-length a.blocks a.intact.nonempty in
        let (first, first_read) = get-inside a.blocks 0 some_block in
        let (last, last_read) = get-inside a.blocks (length a.blocks - 1) (omega arith) in
        let (result, counted) = count_vote_total P L V a.blocks (P.read_script script) in
        let whole =
          (verify_block_integrity_iff P a.blocks (P.read_byte32_vec a.roots_field)).1 a.intact in
        (
          public_values P (header_hash P first.header) (header_hash P last.header) script result,
          rw
              (
                a.parsed, a.field_read, a.verified, a.blocks_read, a.roots_read, whole, first_read,
                last_read, e, counted,
              )
              refl,
        )

    pub main-Succeeds_iff :
        (args_bytes : Bytes) → Succeeds (main P args_bytes) ↔ IsAccepted args_bytes
    main-Succeeds_iff args_bytes = (main-IsAccepted args_bytes, IsAccepted-main args_bytes)
