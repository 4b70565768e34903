-- ===== src/Molecule/Uint16Vec.antt =====
-- The array `Uint16` and the vector `Uint16Vec` of crates/types/src/molecules/types.rs, whose items
-- take two bytes each.
pub mod Builder
pub mod RoundTrip
use ckb_vote_poc.Base.{
  ℕ, ◌+◌, ◌*◌, Bool, Option, none, some, List, [], ◌∷◌, length, not, Result, ok, ◌>>=◌, ◌>>◌,
  fail_if, ltb, leb, ◌==◌, if◌then◌else◌, ◌++◌,
}
use ckb_vote_poc.Chain.{
  Bytes, Packages, VerificationError, header_is_broken, total_size_not_match, Verified,
}
use ckb_vote_poc.Molecule.{read_number, number_size, slice_range, collect, concat}

abbrev pub item_size : ℕ
item_size = 2

-- `Uint16Reader::verify`
unfoldable pub verify_uint16 : Bytes → Bool → Verified
verify_uint16 slice compatible = do
  fail_if (not (length slice == item_size)) (total_size_not_match item_size (length slice))
  ok tt

unfoldable pub get_unchecked : Bytes → ℕ → Result VerificationError Bytes
get_unchecked slice idx =
    let start = number_size + item_size * idx in slice_range slice start (start + item_size)

-- `Uint16Vec::default()`
abbrev pub default_value : Bytes
default_value = 0 ∷ 0 ∷ 0 ∷ 0 ∷ []

module _ (P : Packages) where
  unfoldable pub len : Bytes → Result VerificationError ℕ
  len slice = read_number P slice 0

  unfoldable pub total_size : Bytes → Result VerificationError ℕ
  total_size slice = do count ← len slice; ok (number_size + item_size * count)

  unfoldable pub is_empty : Bytes → Result VerificationError Bool
  is_empty slice = do count ← len slice; ok (count == 0)

  unfoldable pub get : Bytes → ℕ → Result VerificationError (Option Bytes)
  get slice idx = do
    count ← len slice
    if leb count idx then ok none else do item ← get_unchecked slice idx; ok (some item)

  -- `iter()`: `get_unchecked` at every index below `len()`.
  unfoldable pub iter : Bytes → Result VerificationError (List Bytes)
  iter slice = do count ← len slice; collect (get_unchecked slice) count 0

  unfoldable pub verify : Bytes → Bool → Verified
  verify slice compatible = do
    fail_if (ltb (length slice) number_size) (header_is_broken number_size (length slice))
    count ← read_number P slice 0
    if count == 0
        then (do
          fail_if (not (length slice == number_size))
              (total_size_not_match number_size (length slice))
          ok tt)
        else (do
          let total = number_size + item_size * count
          fail_if (not (length slice == total)) (total_size_not_match total (length slice))
          ok tt)

  unfoldable pub build : List Bytes → Bytes
  build items = P.pack_number (length items) ++ concat items
