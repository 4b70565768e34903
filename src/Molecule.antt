-- ===== src/Molecule.antt =====
-- The reader and builder code that crates/types/src/molecules/types.rs repeats for each type, as
-- functions of what varies: the verifiers of the parts. A number takes four bytes, as in the
-- code's own `slice[4..]`, `slice[8..]` and `/ 4`.
pub mod BlockVec
pub mod Uint16
pub mod Uint16Vec
pub mod Vote
pub mod GuestProgramArguments
pub mod Proposal
pub mod PublicValues
pub mod ProposalWitness
pub mod Shallow
pub mod Chunks
pub mod Offsets
pub mod Access
pub mod NoPanic
pub mod Typed
pub mod Safety
pub mod Blocks
pub mod Layout
pub mod RoundTrip
pub mod Fields
pub mod Vectors
pub mod Accepted
pub mod Iteration
pub mod Pieces
pub mod Canonical
pub mod Rebuild
pub mod Lengths
pub mod Schema
pub mod Compatible
pub mod CanonicalVec
pub mod Sizes
use ckb_vote_poc.Base.{
  ℕ, zero, suc, ◌+◌, ◌-◌, ◌*◌, ◌/◌, ◌%◌, Bool, true, false, not, ◌&&◌, ◌||◌, List, [], ◌∷◌, ◌++◌,
  map, length, take, drop, ltb, leb, ◌==◌, if◌then◌else◌, Result, ok, err, panic, ◌>>=◌, ◌>>◌,
  fail_if,
}
use ckb_vote_poc.Chain.{
  Bytes, Packages, VerificationError, header_is_broken, total_size_not_match, field_count_not_match,
  offsets_not_match, Verified,
}

abbrev pub number_size : ℕ
number_size = 4

-- `&slice[start..end]`, which panics out of range.
unfoldable pub slice_range : Bytes → ℕ → ℕ → Result VerificationError Bytes
slice_range slice start end =
    if leb start end && leb end (length slice)
    then ok (take (end - start) (drop start slice))
    else panic

-- `offsets.windows(2).any(|i| i[0] > i[1])`
unfoldable pub any_decrease : List ℕ → Bool
any_decrease [] = false
any_decrease (x ∷ []) = false
any_decrease (x ∷ y ∷ rest) = ltb y x || any_decrease (y ∷ rest)

-- What an iterator over a vector yields: `get` at `idx`, `idx + 1`, ..., `left` times.
unfoldable pub collect :
    (ℕ → Result VerificationError Bytes) → ℕ → ℕ → Result VerificationError (List Bytes)
collect get zero idx = ok []
collect get (suc left) idx = do item ← get idx; rest ← collect get left (idx + 1); ok (item ∷ rest)

-- The dynamic vector's loop over `offsets.windows(2)`.
unfoldable pub verify_items : (Bytes → Verified) → Bytes → List ℕ → Verified
verify_items verify slice [] = ok tt
verify_items verify slice (start ∷ []) = ok tt
verify_items verify slice (start ∷ end ∷ rest) = do
  item ← slice_range slice start end
  verify item
  verify_items verify slice (end ∷ rest)

-- The table's lines `F::verify(&slice[offsets[i]..offsets[i + 1]], compatible)?;`.
unfoldable pub verify_fields : List (Bytes → Verified) → Bytes → List ℕ → Verified
verify_fields [] slice offsets = ok tt
verify_fields (verify ∷ more) slice [] = panic
verify_fields (verify ∷ more) slice (start ∷ []) = panic
verify_fields (verify ∷ more) slice (start ∷ end ∷ rest) = do
  field ← slice_range slice start end
  verify field
  verify_fields more slice (end ∷ rest)

module _ (P : Packages) where
  -- `molecule::unpack_number(&slice[at..]) as usize`
  unfoldable pub read_number : Bytes → ℕ → Result VerificationError ℕ
  read_number slice at =
      if leb (at + number_size) (length slice) then ok (P.unpack_number (drop at slice)) else panic

  -- `.chunks_exact(NUMBER_SIZE).map(|x| unpack_number(x) as usize)`
  unfoldable pub chunk_numbers : Bytes → List ℕ
  chunk_numbers (a ∷ b ∷ c ∷ d ∷ rest) = P.unpack_number (a ∷ b ∷ c ∷ d ∷ []) ∷ chunk_numbers rest
  chunk_numbers _ = []

  unfoldable pub check_total_size : Bytes → Result VerificationError ℕ
  check_total_size slice = do
    fail_if (ltb (length slice) number_size) (header_is_broken number_size (length slice))
    total_size ← read_number slice 0
    fail_if (not (length slice == total_size)) (total_size_not_match total_size (length slice))
    ok total_size

  unfoldable pub check_offset_first : Bytes → Result VerificationError ℕ
  check_offset_first slice = do
    offset_first ← read_number slice number_size
    fail_if (not (offset_first % number_size == 0) || ltb offset_first (number_size * 2))
        offsets_not_match
    fail_if (ltb (length slice) offset_first) (header_is_broken offset_first (length slice))
    ok offset_first

  unfoldable pub read_offsets : Bytes → ℕ → ℕ → Result VerificationError (List ℕ)
  read_offsets slice offset_first total_size = do
    area ← slice_range slice number_size offset_first
    let offsets = chunk_numbers area ++ (total_size ∷ [])
    fail_if (any_decrease offsets) offsets_not_match
    ok offsets

  -- The checks of a vector of items of dynamic size, and the offsets of its items.
  unfoldable pub dynvec_offsets : Bytes → Result VerificationError (List ℕ)
  dynvec_offsets slice = do
    total_size ← check_total_size slice
    if length slice == number_size then ok [] else do
      fail_if (ltb (length slice) (number_size * 2))
          (total_size_not_match (number_size * 2) (length slice))
      offset_first ← check_offset_first slice
      read_offsets slice offset_first total_size

  unfoldable pub verify_dynvec : (Bytes → Verified) → Bytes → Verified
  verify_dynvec verify slice = do offsets ← dynvec_offsets slice; verify_items verify slice offsets

  -- The checks of a table with `fields` fields, and the offsets of its fields. A `strict` check
  -- (`!compatible`) refuses extra fields.
  unfoldable pub table_offsets : Bool → ℕ → Bytes → Result VerificationError (List ℕ)
  table_offsets strict fields slice = do
    total_size ← check_total_size slice
    fail_if (ltb (length slice) (number_size * 2))
        (header_is_broken (number_size * 2) (length slice))
    offset_first ← check_offset_first slice
    let field_count = offset_first / number_size - 1
    fail_if (ltb field_count fields) (field_count_not_match fields field_count)
    fail_if (strict && ltb fields field_count) (field_count_not_match fields field_count)
    read_offsets slice offset_first total_size

  unfoldable pub verify_table : Bool → List (Bytes → Verified) → Bytes → Verified
  verify_table strict fields slice = do
    offsets ← table_offsets strict (length fields) slice
    verify_fields fields slice offsets

  -- `item_count` and `field_count`; `- 1` panics at 0 where overflow is checked.
  unfoldable pub item_count : Bytes → Result VerificationError ℕ
  item_count slice = do
    total_size ← read_number slice 0
    if total_size == number_size then ok 0 else do
      offset_first ← read_number slice number_size
      if offset_first / 4 == 0 then panic else ok (offset_first / 4 - 1)

  -- A field that is not the table's last: its two offsets stand side by side.
  unfoldable pub inner_field : Bytes → ℕ → Result VerificationError Bytes
  inner_field slice at = do
    start ← read_number slice at
    end ← read_number slice (at + number_size)
    slice_range slice start end

  -- The last field ends where an extra field begins, if there is one, or with the table.
  unfoldable pub last_field : ℕ → Bytes → Result VerificationError Bytes
  last_field fields slice = do
    start ← read_number slice (number_size * fields)
    count ← item_count slice
    if not (fields == count)
        then (do
          end ← read_number slice (number_size * fields + number_size)
          slice_range slice start end)
        else slice_range slice start (length slice)

  -- `get_unchecked` and `get` of a dynamic vector.
  unfoldable pub get_unchecked : Bytes → ℕ → Result VerificationError Bytes
  get_unchecked slice idx = do
    start ← read_number slice (number_size * (1 + idx))
    len ← item_count slice
    if idx == len - 1 then slice_range slice start (length slice) else (do
      end ← read_number slice (number_size * (1 + idx) + number_size)
      slice_range slice start end)

  -- `write` of a builder: the size, the offsets, then the parts.
  unfoldable pub pack_offsets : ℕ → List Bytes → Bytes
  pack_offsets start [] = []
  pack_offsets start (part ∷ parts) =
      P.pack_number start ++ pack_offsets (start + length part) parts

unfoldable pub concat : List Bytes → Bytes
concat [] = []
concat (part ∷ parts) = part ++ concat parts

module _ (P : Packages) where
  unfoldable pub write_table : List Bytes → Bytes
  write_table parts =
      let header_size = number_size * (length parts + 1) in
      P.pack_number (header_size + length (concat parts))
      ++ (pack_offsets P header_size parts ++ concat parts)

  unfoldable pub write_dynvec : List Bytes → Bytes
  write_dynvec [] = P.pack_number number_size
  write_dynvec (item ∷ items) = write_table (item ∷ items)
