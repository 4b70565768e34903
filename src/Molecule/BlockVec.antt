-- ===== src/Molecule/BlockVec.antt =====
-- The vector `BlockVec` of crates/types/src/molecules/types.rs. `BlockReader::verify` is of the
-- package `ckb_gen_types`.
pub mod Builder
use ckb_vote_poc.Base.{
  ℕ, Bool, Option, none, some, List, [], ◌∷◌, Result, ok, ◌>>=◌, ◌>>◌, true, false, leb, ◌==◌,
  if◌then◌else◌,
}
use ckb_vote_poc.Chain.{Bytes, Packages, VerificationError, Verified}
use ckb_vote_poc.Molecule.{
  read_number, item_count, get_unchecked, collect, verify_dynvec, write_dynvec,
}

-- `BlockVec::default()`
abbrev pub default_value : Bytes
default_value = 4 ∷ 0 ∷ 0 ∷ 0 ∷ []

module _ (P : Packages) where
  unfoldable pub total_size : Bytes → Result VerificationError ℕ
  total_size slice = read_number P slice 0

  unfoldable pub len : Bytes → Result VerificationError ℕ
  len = item_count P

  unfoldable pub is_empty : Bytes → Result VerificationError Bool
  is_empty slice = do count ← len slice; ok (count == 0)

  unfoldable pub get : Bytes → ℕ → Result VerificationError (Option Bytes)
  get slice idx = do
    count ← len slice
    if leb count idx then ok none else do block ← get_unchecked P slice idx; ok (some block)

  -- `iter()`: `get_unchecked` at every index below `len()`.
  unfoldable pub iter : Bytes → Result VerificationError (List Bytes)
  iter slice = do count ← len slice; collect (get_unchecked P slice) count 0

  unfoldable pub verify : Bytes → Bool → Verified
  verify slice compatible = verify_dynvec P (λ s. P.verify_block s compatible) slice

  unfoldable pub from_slice : Bytes → Result VerificationError Bytes
  from_slice slice = do verify slice false; ok slice

  unfoldable pub from_compatible_slice : Bytes → Result VerificationError Bytes
  from_compatible_slice slice = do verify slice true; ok slice

  unfoldable pub build : List Bytes → Bytes
  build = write_dynvec P
