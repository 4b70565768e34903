-- ===== src/Molecule/CanonicalVec.antt =====
-- The vectors of items of dynamic size that the verification accepts, against those that a builder
-- writes, and `as_builder` of a block vector.
use ckb_vote_poc.Base.{
  ℕ, zero, suc, ◌-◌, ◌*◌, ◌/◌, ◌^◌, ◌<◌, ◌≡◌, refl, sym, ap, subst, ◌∙◌, Bool, Bool-cases, inl, inr,
  List, [], ◌∷◌, ◌++◌, length, length-append, length-drop, take, drop, All, ltb, ◌==◌, ok, ◌>>=◌,
  >>=-eq-ok, fail_if-eq-ok, ok_inj, arith,
}
use ckb_vote_poc.Chain.{Bytes, Packages, NumberLaws, Verified}
use ckb_vote_poc.Molecule.{
  slice_range, any_decrease, verify_items, verify_fields, read_number, chunk_numbers,
  check_total_size, check_offset_first, read_offsets, dynvec_offsets, verify_dynvec, write_table,
  write_dynvec, get_unchecked,
}
use ckb_vote_poc.Molecule.BlockVec
use ckb_vote_poc.Molecule.BlockVec.Builder as Builder
use ckb_vote_poc.Molecule.Chunks.{quads_lem, quads, length-chunk_numbers}
use ckb_vote_poc.Molecule.Iteration.{drain_with-collect}
use ckb_vote_poc.Molecule.Offsets.{
  slice_range-eq-ok, check_total_size-eq-ok, check_offset_first-eq-ok,
}
use ckb_vote_poc.Molecule.Accepted.{Accepted}
use ckb_vote_poc.Molecule.Pieces.{IsBytes}
use ckb_vote_poc.Molecule.Canonical.{pack-read_number, table_offsets-IsWritten}
use ckb_vote_poc.Molecule.Vectors.{BlockVec_iter-build}

-- The same verifier for each of so many items.
abbrev repeat : ℕ → (Bytes → Verified) → List (Bytes → Verified)
repeat zero verify = []
repeat (suc n) verify = verify ∷ repeat n verify

length-repeat : (n : ℕ) (verify : Bytes → Verified) → length (repeat n verify) ≡ n
length-repeat zero verify = refl
length-repeat (suc n) verify = ap suc (length-repeat n verify)

Accepted-repeat :
    (n : ℕ) (verify : Bytes → Verified) (parts : List Bytes)
    → Accepted (repeat n verify) parts
    → All (λ part. verify part ≡ ok tt) parts
Accepted-repeat zero verify [] h = tt
Accepted-repeat zero verify (part ∷ parts) h = elim h [ ]
Accepted-repeat (suc n) verify [] h = elim h [ ]
Accepted-repeat (suc n) verify (part ∷ parts) (here, rest) =
    (here, Accepted-repeat n verify parts rest)

-- A vector's loop is a table's loop whose fields all have the verifier of the items.
verify_items-repeat :
    (verify : Bytes → Verified) (slice : Bytes) (start : ℕ) (ends : List ℕ)
    → verify_items verify slice (start ∷ ends)
      ≡ verify_fields (repeat (length ends) verify) slice (start ∷ ends)
unfolding verify_items verify_fields
verify_items-repeat verify slice start [] = refl
verify_items-repeat verify slice start (end ∷ ends) =
    ap (λ rest. slice_range slice start end >>= λ item. verify item >>= λ done. rest)
      (verify_items-repeat verify slice end ends)

verify_items-numbers :
    (verify : Bytes → Verified) (slice : Bytes) (numbers : List ℕ) (total : ℕ)
    → 0 < length numbers
    → verify_items verify slice (numbers ++ (total ∷ []))
      ≡ verify_fields (repeat (length numbers) verify) slice (numbers ++ (total ∷ []))
verify_items-numbers verify slice [] total h = absurd (omega arith)
verify_items-numbers verify slice (start ∷ numbers) total h =
    let count : length (numbers ++ (total ∷ [])) ≡ suc (length numbers) =
      omega (arith, length-append numbers (total ∷ [])) in
    verify_items-repeat verify slice start (numbers ++ (total ∷ []))
    ∙ ap (λ n. verify_fields (repeat n verify) slice (start ∷ (numbers ++ (total ∷ [])))) count

take_all : (xs : Bytes) → take (length xs) xs ≡ xs
take_all [] = refl
take_all (x ∷ xs) = ap (λ l. x ∷ l) (take_all xs)

module _ (P : Packages) (L : NumberLaws P) where
  -- Items that the verifier accepts, from which a builder writes the slice.
  pub record IsWrittenVec (verify : Bytes → Verified) (slice : Bytes) : Type 0 where
    pub items : List Bytes
    pub accepted : All (λ item. verify item ≡ ok tt) items
    pub written : slice ≡ write_dynvec P items
    pub small : length slice < 2 ^ 32

  write_table-write_dynvec :
      (parts : List Bytes) → 0 < length parts → write_table P parts ≡ write_dynvec P parts
  unfolding write_dynvec
  write_table-write_dynvec [] h = absurd (omega arith)
  write_table-write_dynvec (part ∷ parts) h = refl

  some-IsWrittenVec :
      (verify : Bytes → Verified) (slice area : Bytes) (first total : ℕ)
      → IsBytes slice
      → read_number P slice 0 ≡ ok total
      → length slice ≡ total
      → check_offset_first P slice ≡ ok first
      → slice_range slice 4 first ≡ ok area
      → verify_items verify slice (chunk_numbers P area ++ (total ∷ [])) ≡ ok tt
      → IsWrittenVec verify slice
  some-IsWrittenVec verify slice area first total bytes r₀ size f e h =
      let (r₄, aligned, after, inside) = check_offset_first-eq-ok P slice first f in
      let (lo, hi, is_area) = slice_range-eq-ok slice area 4 first e in
      let count = first / 4 - 1 in
      let width : first - 4 ≡ quads count = omega (arith, quads_lem count) in
      let many : length (chunk_numbers P area) ≡ count =
        ap (λ a. length (chunk_numbers P a)) (is_area ∙ ap (λ k. take k (drop 4 slice)) width)
        ∙ length-chunk_numbers P count (drop 4 slice) (omega (arith, length-drop 4 slice)) in
      let fields = repeat (length (chunk_numbers P area)) verify in
      let w =
        table_offsets-IsWritten P L fields slice area first total bytes r₀ size f
          (omega (arith, length-repeat (length (chunk_numbers P area)) verify)) e
          (sym (verify_items-numbers verify slice (chunk_numbers P area) total (omega arith))
            ∙ h) in
      record {
        items = w.parts;
        accepted = Accepted-repeat (length (chunk_numbers P area)) verify w.parts w.accepted;
        written = w.written ∙ write_table-write_dynvec w.parts w.some_part;
        small = w.small;
      }

  -- If numbers follow the molecule format, a vector that the verification accepts is one that a builder
  -- writes from items that the verifier accepts, and its size fits the four bytes of a molecule number.
  pub verify_dynvec-IsWrittenVec :
      (verify : Bytes → Verified) (slice : Bytes)
      → IsBytes slice
      → verify_dynvec P verify slice ≡ ok tt
      → IsWrittenVec verify slice
  unfolding verify_dynvec dynvec_offsets read_offsets write_dynvec
  verify_dynvec-IsWrittenVec verify slice bytes h =
      let (offsets, e, h₀) = >>=-eq-ok (dynvec_offsets P slice) _ h in
      let (total, e₁, h₁) = >>=-eq-ok (check_total_size P slice) _ e in
      let (r₀, size) = check_total_size-eq-ok P slice total e₁ in
      elim (Bool-cases (length slice == 4)) [
        | inl empty ↦
            let four : length slice ≡ 4 = ground arith in
            record {
              items = [];
              accepted = tt;
              written =
                  sym (take_all slice)
                  ∙ ap (λ n. take n slice) four
                  ∙ sym (pack-read_number P L slice total bytes (omega arith) r₀)
                  ∙ ap P.pack_number (omega arith);
              small = omega arith;
            }
        | inr more ↦
            let (e₂, h₂) = fail_if-eq-ok (ltb (length slice) (4 * 2)) _ _ (rw more at h₁) in
            let (first, e₃, h₃) = >>=-eq-ok (check_offset_first P slice) _ h₂ in
            let (area, e₄, h₄) = >>=-eq-ok (slice_range slice 4 first) _ h₃ in
            let (sorted, h₅) =
              fail_if-eq-ok (any_decrease (chunk_numbers P area ++ (total ∷ []))) _ _ h₄ in
            some-IsWrittenVec verify slice area first total bytes r₀ size e₃ e₄
              (subst (λ l. verify_items verify slice l ≡ ok tt) (sym (ok_inj h₅)) h₀)
      ]

  -- If numbers follow the molecule format, a block vector that the verification accepts is built again,
  -- byte for byte, from the builder that `as_builder` makes of it, and that builder holds the blocks
  -- that iterating over the vector yields, each of which the verification of a block accepts.
  pub block_vec_rebuild :
      (slice : Bytes) (compatible : Bool)
      → IsBytes slice
      → BlockVec.verify P slice compatible ≡ ok tt
      → (blocks : List Bytes) × (BlockVec.iter P slice ≡ ok blocks)
        × (Builder.as_builder P slice ≡ ok (record { blocks = blocks }))
        × (Builder.build P (record { blocks = blocks }) ≡ slice)
        × All (λ block. P.verify_block block compatible ≡ ok tt) blocks
  unfolding BlockVec.verify BlockVec.build BlockVec.iter Builder.as_builder Builder.into_iter
      Builder.build Builder.extend
  block_vec_rebuild slice compatible bytes h =
      let w = verify_dynvec-IsWrittenVec (λ s. P.verify_block s compatible) slice bytes h in
      let read : BlockVec.iter P slice ≡ ok w.items =
        ap (BlockVec.iter P) w.written
        ∙ BlockVec_iter-build P L w.items (subst (λ s. length s < 2 ^ 32) w.written w.small) in
      let (count, e, h₁) = >>=-eq-ok (BlockVec.len P slice) _ read in
      let drained =
        drain_with-collect (get_unchecked P) slice (suc count) count 0 count (omega arith)
          (omega arith) in
      (w.items, read, rw (e, drained ∙ h₁) refl, sym w.written, w.accepted)
