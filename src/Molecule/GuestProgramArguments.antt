-- ===== src/Molecule/GuestProgramArguments.antt =====
-- The table `GuestProgramArguments` of crates/types/src/molecules/types.rs: its reader `GuestProgramArgumentsReader`,
-- which works on the bytes, its entity and its builder.
pub mod Builder
use ckb_vote_poc.Base.{
  ℕ, ◌-◌, Bool, true, false, not, [], ◌∷◌, Result, ok, panic, ◌==◌, ltb, if◌then◌else◌, ◌>>=◌, ◌>>◌,
}
use ckb_vote_poc.Chain.{Bytes, Packages, VerificationError, Verified}
use ckb_vote_poc.Molecule.{
  read_number, item_count, inner_field, last_field, verify_table, write_table,
}

abbrev pub field_count_const : ℕ
field_count_const = 3

-- `GuestProgramArguments::default()`
abbrev pub default_value : Bytes
default_value =
    77 ∷ 0 ∷ 0 ∷ 0 ∷ 16 ∷ 0 ∷ 0 ∷ 0 ∷ 20 ∷ 0 ∷ 0 ∷ 0 ∷ 24 ∷ 0 ∷ 0 ∷ 0 ∷ 0 ∷ 0 ∷ 0 ∷ 0 ∷ 0 ∷ 0 ∷ 0
    ∷ 0 ∷ 53 ∷ 0 ∷ 0 ∷ 0 ∷ 16 ∷ 0 ∷ 0 ∷ 0 ∷ 48 ∷ 0 ∷ 0 ∷ 0 ∷ 49 ∷ 0 ∷ 0 ∷ 0 ∷ 0 ∷ 0 ∷ 0 ∷ 0 ∷ 0 ∷ 0
    ∷ 0 ∷ 0 ∷ 0 ∷ 0 ∷ 0 ∷ 0 ∷ 0 ∷ 0 ∷ 0 ∷ 0 ∷ 0 ∷ 0 ∷ 0 ∷ 0 ∷ 0 ∷ 0 ∷ 0 ∷ 0 ∷ 0 ∷ 0 ∷ 0 ∷ 0 ∷ 0 ∷ 0
    ∷ 0 ∷ 0 ∷ 0 ∷ 0 ∷ 0 ∷ 0 ∷ 0 ∷ []

module _ (P : Packages) where
  unfoldable pub total_size : Bytes → Result VerificationError ℕ
  total_size slice = read_number P slice 0

  unfoldable pub field_count : Bytes → Result VerificationError ℕ
  field_count = item_count P

  unfoldable pub count_extra_fields : Bytes → Result VerificationError ℕ
  count_extra_fields slice = do
    count ← field_count slice
    if ltb count field_count_const then panic else ok (count - field_count_const)

  unfoldable pub has_extra_fields : Bytes → Result VerificationError Bool
  has_extra_fields slice = do count ← field_count slice; ok (not (field_count_const == count))

  unfoldable pub blocks : Bytes → Result VerificationError Bytes
  blocks slice = inner_field P slice 4

  unfoldable pub witness_root : Bytes → Result VerificationError Bytes
  witness_root slice = inner_field P slice 8

  unfoldable pub proposal_script : Bytes → Result VerificationError Bytes
  proposal_script slice = last_field P field_count_const slice

  unfoldable pub verify : Bytes → Bool → Verified
  verify slice compatible =
      verify_table P (not compatible)
        ((λ s. P.verify_bytes s compatible)
          ∷ (λ s. P.verify_byte32_vec s compatible)
          ∷ (λ s. P.verify_script s compatible)
          ∷ [])
        slice

  unfoldable pub from_slice : Bytes → Result VerificationError Bytes
  from_slice slice = do verify slice false; ok slice

  unfoldable pub from_compatible_slice : Bytes → Result VerificationError Bytes
  from_compatible_slice slice = do verify slice true; ok slice

  unfoldable pub build : Bytes → Bytes → Bytes → Bytes
  build blocks' witness_root' proposal_script' =
      write_table P (blocks' ∷ witness_root' ∷ proposal_script' ∷ [])
