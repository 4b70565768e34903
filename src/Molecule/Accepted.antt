-- ===== src/Molecule/Accepted.antt =====
-- The verification of a table that a builder wrote.
use mathlib.Core.List.{append_assoc, append-nil}
use ckb_vote_poc.Base.{
  ℕ, suc, ◌+◌, ◌-◌, ◌*◌, ◌/◌, ◌%◌, ◌^◌, ◌<◌, ◌≡◌, refl, sym, ap, ap₂, ◌∙◌, Bool, false, not, ◌&&◌,
  ◌||◌, List, [], ◌∷◌, ◌++◌, length, length-append, ltb, ◌==◌, ok, arith,
}
use ckb_vote_poc.Chain.{Bytes, Packages, NumberLaws, Verified}
use ckb_vote_poc.Molecule.{
  slice_range, any_decrease, verify_fields, read_number, chunk_numbers, check_total_size,
  check_offset_first, read_offsets, table_offsets, verify_table, pack_offsets, concat, write_table,
}
use ckb_vote_poc.Molecule.Layout.{
  length-pack_offsets, slice_range-append, read_number-append, header_size, length-write_table,
  read_offset,
}

-- The ends of the parts.
abbrev pub part_ends : ℕ → List Bytes → List ℕ
part_ends start [] = []
part_ends start (part ∷ parts) = (start + length part) ∷ part_ends (start + length part) parts

-- The offsets of the parts, and the end of the last.
abbrev pub offsets_of : ℕ → List Bytes → List ℕ
offsets_of start parts = start ∷ part_ends start parts

offsets_of-sorted : (start : ℕ) (parts : List Bytes) → any_decrease (offsets_of start parts) ≡ false
unfolding any_decrease
offsets_of-sorted start [] = refl
offsets_of-sorted start (part ∷ parts) =
    let grows : ltb (start + length part) start ≡ false = ground arith in
    rw grows (offsets_of-sorted (start + length part) parts)

-- Each part is accepted by the verifier at its place.
abbrev pub Accepted : List (Bytes → Verified) → List Bytes → Type 0
Accepted [] [] = Unit
Accepted [] (part ∷ parts) = ⊥
Accepted (verify ∷ fields) [] = ⊥
Accepted (verify ∷ fields) (part ∷ parts) = (verify part ≡ ok tt) × Accepted fields parts

pub Accepted-length :
    (fields : List (Bytes → Verified)) (parts : List Bytes)
    → Accepted fields parts
    → length fields ≡ length parts
Accepted-length [] [] h = refl
Accepted-length [] (part ∷ parts) h = elim h [ ]
Accepted-length (verify ∷ fields) [] h = elim h [ ]
Accepted-length (verify ∷ fields) (part ∷ parts) (here, rest) =
    ap suc (Accepted-length fields parts rest)

-- The loop over the fields of a slice that ends with the parts.
verify_fields-Accepted :
    (fields : List (Bytes → Verified)) (pre : Bytes) (parts : List Bytes)
    → Accepted fields parts
    → verify_fields fields (pre ++ concat parts) (offsets_of (length pre) parts) ≡ ok tt
unfolding verify_fields concat
verify_fields-Accepted [] pre [] h = refl
verify_fields-Accepted [] pre (part ∷ parts) h = elim h [ ]
verify_fields-Accepted (verify ∷ fields) pre [] h = elim h [ ]
verify_fields-Accepted (verify ∷ fields) pre (part ∷ parts) (here, rest) =
    let field : slice_range (pre ++ (part ++ concat parts)) (length pre) (length pre + length part)
        ≡ ok part =
      slice_range-append pre part (concat parts) _ _ refl refl in
    let more = verify_fields-Accepted fields (pre ++ part) parts rest in
    let there : verify_fields fields (pre ++ (part ++ concat parts))
          (offsets_of (length pre + length part) parts)
        ≡ ok tt =
      ap₂ (λ slice start. verify_fields fields slice (offsets_of start parts))
        (sym (append_assoc pre part (concat parts))) (sym (length-append pre part))
      ∙ more in
    rw (field, here) there

module _ (P : Packages) (L : NumberLaws P) where
  chunk_numbers-append :
      (number rest : Bytes)
      → length number ≡ 4
      → chunk_numbers P (number ++ rest) ≡ P.unpack_number number ∷ chunk_numbers P rest
  unfolding chunk_numbers
  chunk_numbers-append (a ∷ b ∷ c ∷ d ∷ []) rest h = refl
  chunk_numbers-append [] rest h = absurd (omega arith)
  chunk_numbers-append (a ∷ []) rest h = absurd (omega arith)
  chunk_numbers-append (a ∷ b ∷ []) rest h = absurd (omega arith)
  chunk_numbers-append (a ∷ b ∷ c ∷ []) rest h = absurd (omega arith)
  chunk_numbers-append (a ∷ b ∷ c ∷ d ∷ e ∷ number) rest h = absurd (omega arith)

  chunk_numbers-empty : chunk_numbers P [] ≡ []
  unfolding chunk_numbers
  chunk_numbers-empty = refl

  chunk_numbers-pack_offsets :
      (start : ℕ) (parts : List Bytes)
      → start + length (concat parts) < 2 ^ 32
      → chunk_numbers P (pack_offsets P start parts) ++ ((start + length (concat parts)) ∷ [])
        ≡ offsets_of start parts
  unfolding pack_offsets concat
  chunk_numbers-pack_offsets start [] h = rw chunk_numbers-empty (ap (λ n. n ∷ []) (omega arith))
  chunk_numbers-pack_offsets start (part ∷ parts) h =
      let size = length-append part (concat parts) in
      let number : P.unpack_number (P.pack_number start) ≡ start =
        ap P.unpack_number (sym (append-nil (P.pack_number start)))
        ∙ L.unpack_pack start [] (omega arith) in
      let rest = chunk_numbers-pack_offsets (start + length part) parts (omega arith) in
      let end : start + length (part ++ concat parts)
          ≡ start + length part + length (concat parts) =
        omega arith in
      rw (chunk_numbers-append (P.pack_number start) _ (L.pack_length start), number, end)
        (ap (λ l. start ∷ l) rest)

  -- The offsets in a built table.
  table_offsets-write_table :
      (strict : Bool) (parts : List Bytes)
      → 0 < length parts
      → length (write_table P parts) < 2 ^ 32
      → table_offsets P strict (length parts) (write_table P parts)
        ≡ ok (offsets_of (header_size P L parts) parts)
  unfolding table_offsets check_total_size check_offset_first read_offsets
  table_offsets-write_table strict [] p h = absurd (omega arith)
  table_offsets-write_table strict (part ∷ rest) p h =
      let parts = part ∷ rest in
      let start = header_size P L parts in
      let total = start + length (concat parts) in
      let size = length-write_table P L parts in
      let first : read_number P (write_table P parts) 0 ≡ ok total =
        unfold write_table in
        read_number-append P L [] (pack_offsets P start parts ++ concat parts) 0 total refl
          (omega arith) in
      let second : read_number P (write_table P parts) 4 ≡ ok start =
        read_offset P L [] part rest 4 refl h ∙ ap ok (unfold concat in omega arith) in
      let area : slice_range (write_table P parts) 4 start ≡ ok (pack_offsets P start parts) =
        unfold write_table in
        slice_range-append (P.pack_number total) (pack_offsets P start parts) (concat parts) 4 start
          (sym (L.pack_length total))
          (omega (arith, L.pack_length total, length-pack_offsets P L start parts)) in
      let long : ltb (length (write_table P parts)) 4 ≡ false = ground arith in
      let exact : not (length (write_table P parts) == total) ≡ false = ground arith in
      let longer : ltb (length (write_table P parts)) (4 * 2) ≡ false = ground arith in
      let aligned : (not (start % 4 == 0) || ltb start (4 * 2)) ≡ false = ground arith in
      let inside : ltb (length (write_table P parts)) start ≡ false = ground arith in
      let count : start / 4 - 1 ≡ length parts = omega arith in
      let enough : ltb (length parts) (length parts) ≡ false = ground arith in
      let loose : (strict && ltb (length parts) (length parts)) ≡ false = ground arith in
      let numbers = chunk_numbers-pack_offsets start parts (omega arith) in
      rw
        (
          long,
          first,
          exact,
          longer,
          second,
          aligned,
          inside,
          count,
          loose,
          enough,
          area,
          numbers,
          offsets_of-sorted start parts,
        )
        refl

  -- If numbers follow the molecule format, a table that was built of at least one part is accepted if
  -- its parts are, as long as its size fits the four bytes of a molecule number.
  pub verify_table-write_table :
      (strict : Bool) (fields : List (Bytes → Verified)) (parts : List Bytes)
      → 0 < length parts
      → Accepted fields parts
      → length (write_table P parts) < 2 ^ 32
      → verify_table P strict fields (write_table P parts) ≡ ok tt
  unfolding verify_table
  verify_table-write_table strict fields parts p accepted h =
      let whole : table_offsets P strict (length fields) (write_table P parts)
          ≡ ok (offsets_of (header_size P L parts) parts) =
        ap (λ n. table_offsets P strict n (write_table P parts))
          (Accepted-length fields parts accepted)
        ∙ table_offsets-write_table strict parts p h in
      let start = header_size P L parts in
      let pre = P.pack_number (start + length (concat parts)) ++ pack_offsets P start parts in
      let split : write_table P parts ≡ pre ++ concat parts =
        unfold write_table in sym (append_assoc _ (pack_offsets P start parts) (concat parts)) in
      let at : length pre ≡ start = omega (
        arith,
        length-append (P.pack_number (start + length (concat parts))) (pack_offsets P start parts),
        L.pack_length (start + length (concat parts)),
        length-pack_offsets P L start parts,
      ) in
      let fits : verify_fields fields (write_table P parts) (offsets_of start parts) ≡ ok tt =
        ap₂ (λ slice n. verify_fields fields slice (offsets_of n parts)) split (sym at)
        ∙ verify_fields-Accepted fields pre parts accepted in
      rw whole fits
