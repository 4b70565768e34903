-- ===== src/Molecule/ProposalWitness.antt =====
-- The table `ProposalWitness` of crates/types/src/molecules/types.rs: its reader `ProposalWitnessReader`,
-- which works on the bytes, its entity and its builder.
pub mod Builder
use ckb_vote_poc.Base.{
  ℕ, ◌-◌, Bool, true, false, not, [], ◌∷◌, Result, ok, panic, ◌==◌, ltb, if◌then◌else◌, ◌>>=◌, ◌>>◌,
}
use ckb_vote_poc.Chain.{Bytes, Packages, VerificationError, Verified}
use ckb_vote_poc.Molecule.{
  read_number, item_count, inner_field, last_field, verify_table, write_table,
}
use ckb_vote_poc.Molecule.PublicValues

abbrev pub field_count_const : ℕ
field_count_const = 2

-- `ProposalWitness::default()`
abbrev pub default_value : Bytes
default_value =
    68 ∷ 1 ∷ 0 ∷ 0 ∷ 12 ∷ 0 ∷ 0 ∷ 0 ∷ 16 ∷ 0 ∷ 0 ∷ 0 ∷ 0 ∷ 0 ∷ 0 ∷ 0 ∷ 52 ∷ 1 ∷ 0 ∷ 0 ∷ 32 ∷ 0 ∷ 0
    ∷ 0 ∷ 174 ∷ 0 ∷ 0 ∷ 0 ∷ 206 ∷ 0 ∷ 0 ∷ 0 ∷ 238 ∷ 0 ∷ 0 ∷ 0 ∷ 35 ∷ 1 ∷ 0 ∷ 0 ∷ 36 ∷ 1 ∷ 0 ∷ 0 ∷ 44
    ∷ 1 ∷ 0 ∷ 0 ∷ 142 ∷ 0 ∷ 0 ∷ 0 ∷ 32 ∷ 0 ∷ 0 ∷ 0 ∷ 36 ∷ 0 ∷ 0 ∷ 0 ∷ 68 ∷ 0 ∷ 0 ∷ 0 ∷ 69 ∷ 0 ∷ 0
    ∷ 0 ∷ 73 ∷ 0 ∷ 0 ∷ 0 ∷ 126 ∷ 0 ∷ 0 ∷ 0 ∷ 134 ∷ 0 ∷ 0 ∷ 0 ∷ 0 ∷ 0 ∷ 0 ∷ 0 ∷ 0 ∷ 0 ∷ 0 ∷ 0 ∷ 0 ∷ 0
    ∷ 0 ∷ 0 ∷ 0 ∷ 0 ∷ 0 ∷ 0 ∷ 0 ∷ 0 ∷ 0 ∷ 0 ∷ 0 ∷ 0 ∷ 0 ∷ 0 ∷ 0 ∷ 0 ∷ 0 ∷ 0 ∷ 0 ∷ 0 ∷ 0 ∷ 0 ∷ 0 ∷ 0
    ∷ 0 ∷ 0 ∷ 0 ∷ 0 ∷ 0 ∷ 0 ∷ 0 ∷ 53 ∷ 0 ∷ 0 ∷ 0 ∷ 16 ∷ 0 ∷ 0 ∷ 0 ∷ 48 ∷ 0 ∷ 0 ∷ 0 ∷ 49 ∷ 0 ∷ 0 ∷ 0
    ∷ 0 ∷ 0 ∷ 0 ∷ 0 ∷ 0 ∷ 0 ∷ 0 ∷ 0 ∷ 0 ∷ 0 ∷ 0 ∷ 0 ∷ 0 ∷ 0 ∷ 0 ∷ 0 ∷ 0 ∷ 0 ∷ 0 ∷ 0 ∷ 0 ∷ 0 ∷ 0 ∷ 0
    ∷ 0 ∷ 0 ∷ 0 ∷ 0 ∷ 0 ∷ 0 ∷ 0 ∷ 0 ∷ 0 ∷ 0 ∷ 0 ∷ 0 ∷ 0 ∷ 0 ∷ 0 ∷ 0 ∷ 0 ∷ 0 ∷ 0 ∷ 0 ∷ 0 ∷ 0 ∷ 0 ∷ 0
    ∷ 0 ∷ 0 ∷ 0 ∷ 0 ∷ 0 ∷ 0 ∷ 0 ∷ 0 ∷ 0 ∷ 0 ∷ 0 ∷ 0 ∷ 0 ∷ 0 ∷ 0 ∷ 0 ∷ 0 ∷ 0 ∷ 0 ∷ 0 ∷ 0 ∷ 0 ∷ 0 ∷ 0
    ∷ 0 ∷ 0 ∷ 0 ∷ 0 ∷ 0 ∷ 0 ∷ 0 ∷ 0 ∷ 0 ∷ 0 ∷ 0 ∷ 0 ∷ 0 ∷ 0 ∷ 0 ∷ 0 ∷ 0 ∷ 0 ∷ 0 ∷ 0 ∷ 0 ∷ 0 ∷ 0 ∷ 0
    ∷ 0 ∷ 0 ∷ 0 ∷ 0 ∷ 0 ∷ 0 ∷ 0 ∷ 0 ∷ 0 ∷ 0 ∷ 0 ∷ 0 ∷ 0 ∷ 0 ∷ 0 ∷ 0 ∷ 0 ∷ 0 ∷ 0 ∷ 0 ∷ 0 ∷ 53 ∷ 0 ∷ 0
    ∷ 0 ∷ 16 ∷ 0 ∷ 0 ∷ 0 ∷ 48 ∷ 0 ∷ 0 ∷ 0 ∷ 49 ∷ 0 ∷ 0 ∷ 0 ∷ 0 ∷ 0 ∷ 0 ∷ 0 ∷ 0 ∷ 0 ∷ 0 ∷ 0 ∷ 0 ∷ 0
    ∷ 0 ∷ 0 ∷ 0 ∷ 0 ∷ 0 ∷ 0 ∷ 0 ∷ 0 ∷ 0 ∷ 0 ∷ 0 ∷ 0 ∷ 0 ∷ 0 ∷ 0 ∷ 0 ∷ 0 ∷ 0 ∷ 0 ∷ 0 ∷ 0 ∷ 0 ∷ 0 ∷ 0
    ∷ 0 ∷ 0 ∷ 0 ∷ 0 ∷ 0 ∷ 0 ∷ 0 ∷ 0 ∷ 0 ∷ 0 ∷ 0 ∷ 0 ∷ 0 ∷ 0 ∷ 0 ∷ 0 ∷ 0 ∷ 0 ∷ 0 ∷ 0 ∷ []

module _ (P : Packages) where
  unfoldable pub total_size : Bytes → Result VerificationError ℕ
  total_size slice = read_number P slice 0

  unfoldable pub field_count : Bytes → Result VerificationError ℕ
  field_count = item_count P

  unfoldable pub count_extra_fields : Bytes → Result VerificationError ℕ
  count_extra_fields slice = do
    count ← field_count slice
    if ltb count field_count_const then panic else ok (count - field_count_const)

  unfoldable pub has_extra_fields : Bytes → Result VerificationError Bool
  has_extra_fields slice = do count ← field_count slice; ok (not (field_count_const == count))

  unfoldable pub proof : Bytes → Result VerificationError Bytes
  proof slice = inner_field P slice 4

  unfoldable pub public_values : Bytes → Result VerificationError Bytes
  public_values slice = last_field P field_count_const slice

  unfoldable pub verify : Bytes → Bool → Verified
  verify slice compatible =
      verify_table P (not compatible)
        ((λ s. P.verify_bytes s compatible) ∷ (λ s. PublicValues.verify P s compatible) ∷ []) slice

  unfoldable pub from_slice : Bytes → Result VerificationError Bytes
  from_slice slice = do verify slice false; ok slice

  unfoldable pub from_compatible_slice : Bytes → Result VerificationError Bytes
  from_compatible_slice slice = do verify slice true; ok slice

  unfoldable pub build : Bytes → Bytes → Bytes
  build proof' public_values' = write_table P (proof' ∷ public_values' ∷ [])
