-- ===== src/Molecule/PublicValues.antt =====
-- The table `PublicValues` of crates/types/src/molecules/types.rs: its reader `PublicValuesReader`,
-- which works on the bytes, its entity and its builder.
pub mod Builder
use ckb_vote_poc.Base.{
  ℕ, ◌-◌, Bool, true, false, not, [], ◌∷◌, Result, ok, panic, ◌==◌, ltb, if◌then◌else◌, ◌>>=◌, ◌>>◌,
}
use ckb_vote_poc.Chain.{Bytes, Packages, VerificationError, Verified}
use ckb_vote_poc.Molecule.{
  read_number, item_count, inner_field, last_field, verify_table, write_table,
}
use ckb_vote_poc.Molecule.Proposal

abbrev pub field_count_const : ℕ
field_count_const = 7

-- `PublicValues::default()`
abbrev pub default_value : Bytes
default_value =
    52 ∷ 1 ∷ 0 ∷ 0 ∷ 32 ∷ 0 ∷ 0 ∷ 0 ∷ 174 ∷ 0 ∷ 0 ∷ 0 ∷ 206 ∷ 0 ∷ 0 ∷ 0 ∷ 238 ∷ 0 ∷ 0 ∷ 0 ∷ 35 ∷ 1
    ∷ 0 ∷ 0 ∷ 36 ∷ 1 ∷ 0 ∷ 0 ∷ 44 ∷ 1 ∷ 0 ∷ 0 ∷ 142 ∷ 0 ∷ 0 ∷ 0 ∷ 32 ∷ 0 ∷ 0 ∷ 0 ∷ 36 ∷ 0 ∷ 0 ∷ 0
    ∷ 68 ∷ 0 ∷ 0 ∷ 0 ∷ 69 ∷ 0 ∷ 0 ∷ 0 ∷ 73 ∷ 0 ∷ 0 ∷ 0 ∷ 126 ∷ 0 ∷ 0 ∷ 0 ∷ 134 ∷ 0 ∷ 0 ∷ 0 ∷ 0 ∷ 0
    ∷ 0 ∷ 0 ∷ 0 ∷ 0 ∷ 0 ∷ 0 ∷ 0 ∷ 0 ∷ 0 ∷ 0 ∷ 0 ∷ 0 ∷ 0 ∷ 0 ∷ 0 ∷ 0 ∷ 0 ∷ 0 ∷ 0 ∷ 0 ∷ 0 ∷ 0 ∷ 0 ∷ 0
    ∷ 0 ∷ 0 ∷ 0 ∷ 0 ∷ 0 ∷ 0 ∷ 0 ∷ 0 ∷ 0 ∷ 0 ∷ 0 ∷ 0 ∷ 0 ∷ 0 ∷ 0 ∷ 53 ∷ 0 ∷ 0 ∷ 0 ∷ 16 ∷ 0 ∷ 0 ∷ 0
    ∷ 48 ∷ 0 ∷ 0 ∷ 0 ∷ 49 ∷ 0 ∷ 0 ∷ 0 ∷ 0 ∷ 0 ∷ 0 ∷ 0 ∷ 0 ∷ 0 ∷ 0 ∷ 0 ∷ 0 ∷ 0 ∷ 0 ∷ 0 ∷ 0 ∷ 0 ∷ 0
    ∷ 0 ∷ 0 ∷ 0 ∷ 0 ∷ 0 ∷ 0 ∷ 0 ∷ 0 ∷ 0 ∷ 0 ∷ 0 ∷ 0 ∷ 0 ∷ 0 ∷ 0 ∷ 0 ∷ 0 ∷ 0 ∷ 0 ∷ 0 ∷ 0 ∷ 0 ∷ 0 ∷ 0
    ∷ 0 ∷ 0 ∷ 0 ∷ 0 ∷ 0 ∷ 0 ∷ 0 ∷ 0 ∷ 0 ∷ 0 ∷ 0 ∷ 0 ∷ 0 ∷ 0 ∷ 0 ∷ 0 ∷ 0 ∷ 0 ∷ 0 ∷ 0 ∷ 0 ∷ 0 ∷ 0 ∷ 0
    ∷ 0 ∷ 0 ∷ 0 ∷ 0 ∷ 0 ∷ 0 ∷ 0 ∷ 0 ∷ 0 ∷ 0 ∷ 0 ∷ 0 ∷ 0 ∷ 0 ∷ 0 ∷ 0 ∷ 0 ∷ 0 ∷ 0 ∷ 0 ∷ 0 ∷ 0 ∷ 0 ∷ 0
    ∷ 0 ∷ 0 ∷ 0 ∷ 0 ∷ 0 ∷ 0 ∷ 0 ∷ 0 ∷ 0 ∷ 0 ∷ 0 ∷ 0 ∷ 0 ∷ 0 ∷ 0 ∷ 0 ∷ 0 ∷ 0 ∷ 0 ∷ 0 ∷ 0 ∷ 0 ∷ 0 ∷ 0
    ∷ 0 ∷ 0 ∷ 0 ∷ 0 ∷ 0 ∷ 0 ∷ 53 ∷ 0 ∷ 0 ∷ 0 ∷ 16 ∷ 0 ∷ 0 ∷ 0 ∷ 48 ∷ 0 ∷ 0 ∷ 0 ∷ 49 ∷ 0 ∷ 0 ∷ 0 ∷ 0
    ∷ 0 ∷ 0 ∷ 0 ∷ 0 ∷ 0 ∷ 0 ∷ 0 ∷ 0 ∷ 0 ∷ 0 ∷ 0 ∷ 0 ∷ 0 ∷ 0 ∷ 0 ∷ 0 ∷ 0 ∷ 0 ∷ 0 ∷ 0 ∷ 0 ∷ 0 ∷ 0 ∷ 0
    ∷ 0 ∷ 0 ∷ 0 ∷ 0 ∷ 0 ∷ 0 ∷ 0 ∷ 0 ∷ 0 ∷ 0 ∷ 0 ∷ 0 ∷ 0 ∷ 0 ∷ 0 ∷ 0 ∷ 0 ∷ 0 ∷ 0 ∷ 0 ∷ 0 ∷ 0 ∷ 0 ∷ 0
    ∷ 0 ∷ 0 ∷ 0 ∷ 0 ∷ 0 ∷ []

module _ (P : Packages) where
  unfoldable pub total_size : Bytes → Result VerificationError ℕ
  total_size slice = read_number P slice 0

  unfoldable pub field_count : Bytes → Result VerificationError ℕ
  field_count = item_count P

  unfoldable pub count_extra_fields : Bytes → Result VerificationError ℕ
  count_extra_fields slice = do
    count ← field_count slice
    if ltb count field_count_const then panic else ok (count - field_count_const)

  unfoldable pub has_extra_fields : Bytes → Result VerificationError Bool
  has_extra_fields slice = do count ← field_count slice; ok (not (field_count_const == count))

  unfoldable pub proposal : Bytes → Result VerificationError Bytes
  proposal slice = inner_field P slice 4

  unfoldable pub start_block_hash : Bytes → Result VerificationError Bytes
  start_block_hash slice = inner_field P slice 8

  unfoldable pub end_block_hash : Bytes → Result VerificationError Bytes
  end_block_hash slice = inner_field P slice 12

  unfoldable pub proposal_script : Bytes → Result VerificationError Bytes
  proposal_script slice = inner_field P slice 16

  unfoldable pub passed : Bytes → Result VerificationError Bytes
  passed slice = inner_field P slice 20

  unfoldable pub yes_vote : Bytes → Result VerificationError Bytes
  yes_vote slice = inner_field P slice 24

  unfoldable pub no_vote : Bytes → Result VerificationError Bytes
  no_vote slice = last_field P field_count_const slice

  unfoldable pub verify : Bytes → Bool → Verified
  verify slice compatible =
      verify_table P (not compatible)
        ((λ s. Proposal.verify P s compatible)
          ∷ (λ s. P.verify_byte32 s compatible)
          ∷ (λ s. P.verify_byte32 s compatible)
          ∷ (λ s. P.verify_script s compatible)
          ∷ (λ s. P.verify_byte s compatible)
          ∷ (λ s. P.verify_uint64 s compatible)
          ∷ (λ s. P.verify_uint64 s compatible)
          ∷ [])
        slice

  unfoldable pub from_slice : Bytes → Result VerificationError Bytes
  from_slice slice = do verify slice false; ok slice

  unfoldable pub from_compatible_slice : Bytes → Result VerificationError Bytes
  from_compatible_slice slice = do verify slice true; ok slice

  unfoldable pub build : Bytes → Bytes → Bytes → Bytes → Bytes → Bytes → Bytes → Bytes
  build proposal' start_block_hash' end_block_hash' proposal_script' passed' yes_vote' no_vote' =
      write_table P (
        proposal' ∷ start_block_hash' ∷ end_block_hash' ∷ proposal_script' ∷ passed' ∷ yes_vote'
        ∷ no_vote' ∷ [])
