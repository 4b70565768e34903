-- ===== src/Molecule/Proposal.antt =====
-- The table `Proposal` of crates/types/src/molecules/types.rs: its reader `ProposalReader`,
-- which works on the bytes, its entity and its builder.
pub mod Builder
use ckb_vote_poc.Base.{
  ℕ, ◌-◌, Bool, true, false, not, [], ◌∷◌, Result, ok, panic, ◌==◌, ltb, if◌then◌else◌, ◌>>=◌, ◌>>◌,
}
use ckb_vote_poc.Chain.{Bytes, Packages, VerificationError, Verified}
use ckb_vote_poc.Molecule.{
  read_number, item_count, inner_field, last_field, verify_table, write_table,
}

abbrev pub field_count_const : ℕ
field_count_const = 7

-- `Proposal::default()`
abbrev pub default_value : Bytes
default_value =
    142 ∷ 0 ∷ 0 ∷ 0 ∷ 32 ∷ 0 ∷ 0 ∷ 0 ∷ 36 ∷ 0 ∷ 0 ∷ 0 ∷ 68 ∷ 0 ∷ 0 ∷ 0 ∷ 69 ∷ 0 ∷ 0 ∷ 0 ∷ 73 ∷ 0 ∷ 0
    ∷ 0 ∷ 126 ∷ 0 ∷ 0 ∷ 0 ∷ 134 ∷ 0 ∷ 0 ∷ 0 ∷ 0 ∷ 0 ∷ 0 ∷ 0 ∷ 0 ∷ 0 ∷ 0 ∷ 0 ∷ 0 ∷ 0 ∷ 0 ∷ 0 ∷ 0 ∷ 0
    ∷ 0 ∷ 0 ∷ 0 ∷ 0 ∷ 0 ∷ 0 ∷ 0 ∷ 0 ∷ 0 ∷ 0 ∷ 0 ∷ 0 ∷ 0 ∷ 0 ∷ 0 ∷ 0 ∷ 0 ∷ 0 ∷ 0 ∷ 0 ∷ 0 ∷ 0 ∷ 0 ∷ 0
    ∷ 0 ∷ 0 ∷ 0 ∷ 53 ∷ 0 ∷ 0 ∷ 0 ∷ 16 ∷ 0 ∷ 0 ∷ 0 ∷ 48 ∷ 0 ∷ 0 ∷ 0 ∷ 49 ∷ 0 ∷ 0 ∷ 0 ∷ 0 ∷ 0 ∷ 0 ∷ 0
    ∷ 0 ∷ 0 ∷ 0 ∷ 0 ∷ 0 ∷ 0 ∷ 0 ∷ 0 ∷ 0 ∷ 0 ∷ 0 ∷ 0 ∷ 0 ∷ 0 ∷ 0 ∷ 0 ∷ 0 ∷ 0 ∷ 0 ∷ 0 ∷ 0 ∷ 0 ∷ 0 ∷ 0
    ∷ 0 ∷ 0 ∷ 0 ∷ 0 ∷ 0 ∷ 0 ∷ 0 ∷ 0 ∷ 0 ∷ 0 ∷ 0 ∷ 0 ∷ 0 ∷ 0 ∷ 0 ∷ 0 ∷ 0 ∷ 0 ∷ 0 ∷ 0 ∷ 0 ∷ 0 ∷ 0 ∷ 0
    ∷ 0 ∷ []

module _ (P : Packages) where
  unfoldable pub total_size : Bytes → Result VerificationError ℕ
  total_size slice = read_number P slice 0

  unfoldable pub field_count : Bytes → Result VerificationError ℕ
  field_count = item_count P

  unfoldable pub count_extra_fields : Bytes → Result VerificationError ℕ
  count_extra_fields slice = do
    count ← field_count slice
    if ltb count field_count_const then panic else ok (count - field_count_const)

  unfoldable pub has_extra_fields : Bytes → Result VerificationError Bool
  has_extra_fields slice = do count ← field_count slice; ok (not (field_count_const == count))

  unfoldable pub duration : Bytes → Result VerificationError Bytes
  duration slice = inner_field P slice 4

  unfoldable pub vote_cell_code_hash : Bytes → Result VerificationError Bytes
  vote_cell_code_hash slice = inner_field P slice 8

  unfoldable pub vote_cell_hash_type : Bytes → Result VerificationError Bytes
  vote_cell_hash_type slice = inner_field P slice 12

  unfoldable pub description : Bytes → Result VerificationError Bytes
  description slice = inner_field P slice 16

  unfoldable pub receiver : Bytes → Result VerificationError Bytes
  receiver slice = inner_field P slice 20

  unfoldable pub amount : Bytes → Result VerificationError Bytes
  amount slice = inner_field P slice 24

  unfoldable pub minimal_requirement : Bytes → Result VerificationError Bytes
  minimal_requirement slice = last_field P field_count_const slice

  unfoldable pub verify : Bytes → Bool → Verified
  verify slice compatible =
      verify_table P (not compatible)
        ((λ s. P.verify_uint32 s compatible)
          ∷ (λ s. P.verify_byte32 s compatible)
          ∷ (λ s. P.verify_byte s compatible)
          ∷ (λ s. P.verify_bytes s compatible)
          ∷ (λ s. P.verify_script s compatible)
          ∷ (λ s. P.verify_uint64 s compatible)
          ∷ (λ s. P.verify_uint64 s compatible)
          ∷ [])
        slice

  unfoldable pub from_slice : Bytes → Result VerificationError Bytes
  from_slice slice = do verify slice false; ok slice

  unfoldable pub from_compatible_slice : Bytes → Result VerificationError Bytes
  from_compatible_slice slice = do verify slice true; ok slice

  unfoldable pub build : Bytes → Bytes → Bytes → Bytes → Bytes → Bytes → Bytes → Bytes
  build duration' vote_cell_code_hash' vote_cell_hash_type' description' receiver' amount'
        minimal_requirement' =
      write_table P (
        duration' ∷ vote_cell_code_hash' ∷ vote_cell_hash_type' ∷ description' ∷ receiver' ∷ amount'
        ∷ minimal_requirement' ∷ [])
