-- ===== src/Molecule/Vote.antt =====
-- The table `Vote` of crates/types/src/molecules/types.rs: its reader `VoteReader`,
-- which works on the bytes, its entity and its builder.
pub mod Builder
use ckb_vote_poc.Base.{
  ℕ, ◌-◌, Bool, true, false, not, [], ◌∷◌, Result, ok, panic, ◌==◌, ltb, if◌then◌else◌, ◌>>=◌, ◌>>◌,
}
use ckb_vote_poc.Chain.{Bytes, Packages, VerificationError, Verified}
use ckb_vote_poc.Molecule.{
  read_number, item_count, inner_field, last_field, verify_table, write_table,
}
use ckb_vote_poc.Molecule.Uint16Vec

abbrev pub field_count_const : ℕ
field_count_const = 3

-- `Vote::default()`
abbrev pub default_value : Bytes
default_value =
    29 ∷ 0 ∷ 0 ∷ 0 ∷ 16 ∷ 0 ∷ 0 ∷ 0 ∷ 17 ∷ 0 ∷ 0 ∷ 0 ∷ 25 ∷ 0 ∷ 0 ∷ 0 ∷ 0 ∷ 0 ∷ 0 ∷ 0 ∷ 0 ∷ 0 ∷ 0
    ∷ 0 ∷ 0 ∷ 0 ∷ 0 ∷ 0 ∷ 0 ∷ []

module _ (P : Packages) where
  unfoldable pub total_size : Bytes → Result VerificationError ℕ
  total_size slice = read_number P slice 0

  unfoldable pub field_count : Bytes → Result VerificationError ℕ
  field_count = item_count P

  unfoldable pub count_extra_fields : Bytes → Result VerificationError ℕ
  count_extra_fields slice = do
    count ← field_count slice
    if ltb count field_count_const then panic else ok (count - field_count_const)

  unfoldable pub has_extra_fields : Bytes → Result VerificationError Bool
  has_extra_fields slice = do count ← field_count slice; ok (not (field_count_const == count))

  unfoldable pub vote : Bytes → Result VerificationError Bytes
  vote slice = inner_field P slice 4

  unfoldable pub amount : Bytes → Result VerificationError Bytes
  amount slice = inner_field P slice 8

  unfoldable pub dao_index : Bytes → Result VerificationError Bytes
  dao_index slice = last_field P field_count_const slice

  unfoldable pub verify : Bytes → Bool → Verified
  verify slice compatible =
      verify_table P (not compatible)
        ((λ s. P.verify_byte s compatible)
          ∷ (λ s. P.verify_uint64 s compatible)
          ∷ (λ s. Uint16Vec.verify P s compatible)
          ∷ [])
        slice

  unfoldable pub from_slice : Bytes → Result VerificationError Bytes
  from_slice slice = do verify slice false; ok slice

  unfoldable pub from_compatible_slice : Bytes → Result VerificationError Bytes
  from_compatible_slice slice = do verify slice true; ok slice

  unfoldable pub build : Bytes → Bytes → Bytes → Bytes
  build vote' amount' dao_index' = write_table P (vote' ∷ amount' ∷ dao_index' ∷ [])
