-- ===== src/Molecule/Uint16.antt =====
-- The array `Uint16` of crates/types/src/molecules/types.rs: two bytes, its accessors, its builder and
-- its conversions. A `Byte` is the slice of its one byte.
use ckb_vote_poc.Base.{
  ℕ, ◌≡◌, refl, Option, none, some, Bool, true, false, not, List, [], ◌∷◌, ◌++◌, length, ◌==◌,
  Result, ok, ◌>>=◌, ◌>>◌, fail_if-eq-ok, unwrap, arith,
}
use ckb_vote_poc.Chain.{Bytes, Packages, VerificationError}
use ckb_vote_poc.Molecule.{slice_range}
use ckb_vote_poc.Molecule.Uint16Vec.{verify_uint16}

abbrev pub total_size : ℕ
total_size = 2

-- `Uint16::default()`
abbrev pub default_value : Bytes
default_value = 0 ∷ 0 ∷ []

unfoldable pub nth0 : Bytes → Result VerificationError Bytes
nth0 slice = slice_range slice 0 1

unfoldable pub nth1 : Bytes → Result VerificationError Bytes
nth1 slice = slice_range slice 1 2

unfoldable pub from_slice : Bytes → Result VerificationError Bytes
from_slice slice = do verify_uint16 slice false; ok slice

unfoldable pub from_compatible_slice : Bytes → Result VerificationError Bytes
from_compatible_slice slice = do verify_uint16 slice true; ok slice

-- `Uint16Builder([Byte; 2])`
pub record Uint16Builder : Type 0 where
  pub byte0 : Bytes
  pub byte1 : Bytes

unfoldable pub set : Uint16Builder → Bytes × Bytes → Uint16Builder
set builder v = record builder { byte0 = v.0; byte1 = v.1 }

unfoldable pub with_nth0 : Uint16Builder → Bytes → Uint16Builder
with_nth0 builder v = record builder { byte0 = v }

unfoldable pub with_nth1 : Uint16Builder → Bytes → Uint16Builder
with_nth1 builder v = record builder { byte1 = v }

abbrev pub expected_length : Uint16Builder → ℕ
expected_length builder = total_size

unfoldable pub build : Uint16Builder → Bytes
build builder = builder.byte0 ++ builder.byte1

-- `[value.nth0(), value.nth1()]`
unfoldable pub into_byte_array : Bytes → Result VerificationError (Bytes × Bytes)
into_byte_array value = do first ← nth0 value; second ← nth1 value; ok (first, second)

-- `<[u8; 2usize]>::try_from(value)`, whose error has no content.
unfoldable pub try_from_u8_slice : Bytes → Option Bytes
try_from_u8_slice (a ∷ b ∷ []) = some (a ∷ b ∷ [])
try_from_u8_slice _ = none

-- `TryFrom::try_from(value.as_slice()).unwrap()`
unfoldable pub into_u8_array : Bytes → Result VerificationError Bytes
into_u8_array value = unwrap (try_from_u8_slice value)

module _ (P : Packages) where
  unfoldable pub new_builder : Uint16Builder
  new_builder = record { byte0 = P.default_byte; byte1 = P.default_byte }

  -- `self.nth0()` first.
  unfoldable pub as_builder : Bytes → Result VerificationError Uint16Builder
  as_builder entity = do
    first ← nth0 entity
    second ← nth1 entity
    ok (set new_builder (first, second))

  unfoldable pub from_byte_array : Bytes × Bytes → Bytes
  from_byte_array value = build (set new_builder value)

  -- `<&[Byte; 2usize]>::try_from(value)?`
  unfoldable pub try_from_byte_slice : List Bytes → Option Bytes
  try_from_byte_slice (first ∷ second ∷ []) = some (build (set new_builder (first, second)))
  try_from_byte_slice _ = none

  -- A slice that the verification accepts is built again from the builder that `as_builder` makes of
  -- it, its bytes as an array are the slice, and the array of its `Byte`s is converted back into it.
  pub uint16_rebuild :
      (slice : Bytes) (compatible : Bool)
      → verify_uint16 slice compatible ≡ ok tt
      → ((do builder ← as_builder slice; ok (build builder)) ≡ ok slice)
        × (into_u8_array slice ≡ ok slice)
        × ((do value ← into_byte_array slice; ok (from_byte_array value)) ≡ ok slice)
  unfolding verify_uint16 as_builder build into_u8_array try_from_u8_slice into_byte_array
      from_byte_array set nth0 nth1 slice_range
  uint16_rebuild [] compatible h = cc
  uint16_rebuild (a ∷ []) compatible h = cc
  uint16_rebuild (a ∷ b ∷ []) compatible h = (refl, refl, refl)
  uint16_rebuild (a ∷ b ∷ c ∷ rest) compatible h =
      let (same, done) = fail_if-eq-ok (not (length (a ∷ b ∷ c ∷ rest) == 2)) _ _ h in
      let size : length (a ∷ b ∷ c ∷ rest) ≡ 2 = ground arith in absurd (omega arith)
