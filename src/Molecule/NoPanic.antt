-- ===== src/Molecule/NoPanic.antt =====
-- The slices that verification takes of any bytes.
use ckb_vote_poc.Base.{
  ℕ, zero, suc, ◌-◌, ◌*◌, ◌/◌, ◌%◌, ◌≤◌, ◌<◌, ◌≡◌, inl, inr, Bool, true, false, not, ◌&&◌, ◌||◌,
  some, List, [], ◌∷◌, ◌++◌, length, drop, get_elem?, ltb, leb, ◌==◌, ok, NoPanic, NoPanic-bind,
  NoPanic-fail_if, NoPanic-if, All, arith,
}
use ckb_vote_poc.Chain.{Bytes, Packages, NumberLaws, Verified}
use ckb_vote_poc.Molecule.{
  slice_range, any_decrease, verify_items, verify_fields, chunk_numbers, check_total_size,
  check_offset_first, read_offsets, dynvec_offsets, verify_dynvec, table_offsets, verify_table,
}
use ckb_vote_poc.Molecule.Offsets.{check_offset_first-eq-ok, read_number-inside}
use ckb_vote_poc.Molecule.Access.{table_offsets-IsOffsets, dynvec_offsets-IsOffsets}

-- A verifier that never panics.
abbrev pub IsSafe : (Bytes → Verified) → Type 0
IsSafe verify = (slice : Bytes) → NoPanic (verify slice)

slice_range-inside :
    (slice : Bytes) (start end : ℕ)
    → start ≤ end
    → end ≤ length slice
    → NoPanic (slice_range slice start end)
unfolding slice_range
slice_range-inside slice start end p q =
    let inside : (leb start end && leb end (length slice)) ≡ true = ground arith in rw inside tt

sorted-bounded :
    (offsets : List ℕ) (c n : ℕ)
    → any_decrease offsets ≡ false
    → length offsets ≡ suc c
    → get_elem? offsets c ≡ some n
    → All (λ offset. offset ≤ n) offsets
unfolding any_decrease
sorted-bounded [] c n s l e = tt
sorted-bounded (x ∷ []) zero n s l e = let same : x ≡ n = cc e in (omega arith, tt)
sorted-bounded (x ∷ []) (suc c) n s l e = absurd (omega arith)
sorted-bounded (x ∷ y ∷ rest) zero n s l e = absurd (omega arith)
sorted-bounded (x ∷ y ∷ rest) (suc c) n s l e =
    let later = sorted-bounded (y ∷ rest) c n (ground arith) (omega arith) e in
    let step : x ≤ y = ground arith in let bound : y ≤ n = later.0 in (omega arith, later)

verify_items-NoPanic :
    (verify : Bytes → Verified) (slice : Bytes) (offsets : List ℕ)
    → IsSafe verify
    → any_decrease offsets ≡ false
    → All (λ offset. offset ≤ length slice) offsets
    → NoPanic (verify_items verify slice offsets)
unfolding verify_items any_decrease
verify_items-NoPanic v slice [] safe s b = tt
verify_items-NoPanic v slice (start ∷ []) safe s b = tt
verify_items-NoPanic v slice (start ∷ end ∷ rest) safe s (lo, (hi, b)) =
    NoPanic-bind (slice_range slice start end) _
      (slice_range-inside slice start end (ground arith) hi)
      λ part e.
        NoPanic-bind (v part) _ (safe part)
          λ u e'. verify_items-NoPanic v slice (end ∷ rest) safe (ground arith) (hi, b)

verify_fields-NoPanic :
    (fields : List (Bytes → Verified)) (slice : Bytes) (offsets : List ℕ)
    → All IsSafe fields
    → length fields < length offsets
    → any_decrease offsets ≡ false
    → All (λ offset. offset ≤ length slice) offsets
    → NoPanic (verify_fields fields slice offsets)
unfolding verify_fields any_decrease
verify_fields-NoPanic [] slice offsets safe n s b = tt
verify_fields-NoPanic (v ∷ more) slice [] safe n s b = absurd (omega arith)
verify_fields-NoPanic (v ∷ more) slice (start ∷ []) safe n s b = absurd (omega arith)
verify_fields-NoPanic (v ∷ more) slice (start ∷ end ∷ rest) (here, safe) n s (lo, (hi, b)) =
    NoPanic-bind (slice_range slice start end) _
      (slice_range-inside slice start end (ground arith) hi)
      λ part e. NoPanic-bind (v part) _ (here part) λ u e'.
        verify_fields-NoPanic more slice (end ∷ rest) safe (omega arith) (ground arith) (hi, b)

module _ (P : Packages) where
  check_total_size-NoPanic : (slice : Bytes) → NoPanic (check_total_size P slice)
  unfolding check_total_size
  check_total_size-NoPanic slice = NoPanic-fail_if (ltb (length slice) 4) _ _ λ long.
      rw (read_number-inside P slice 0 (ground arith))
        (NoPanic-fail_if (not (length slice == P.unpack_number (drop 0 slice))) _ _ λ e. tt)

  check_offset_first-NoPanic :
      (slice : Bytes) → 8 ≤ length slice → NoPanic (check_offset_first P slice)
  unfolding check_offset_first
  check_offset_first-NoPanic slice h =
      let first = P.unpack_number (drop 4 slice) in
      rw (read_number-inside P slice 4 (omega arith)) (
        NoPanic-fail_if (not (first % 4 == 0) || ltb first (4 * 2)) _ _
          λ e. NoPanic-fail_if (ltb (length slice) first) _ _ λ e'. tt)

  read_offsets-NoPanic :
      (slice : Bytes) (first total : ℕ)
      → check_offset_first P slice ≡ ok first
      → NoPanic (read_offsets P slice first total)
  unfolding read_offsets
  read_offsets-NoPanic slice first total f =
      let (r₄, aligned, after, inside) = check_offset_first-eq-ok P slice first f in
      NoPanic-bind (slice_range slice 4 first) _
        (slice_range-inside slice 4 first (omega arith) inside)
        λ area e. NoPanic-fail_if (any_decrease (chunk_numbers P area ++ (total ∷ []))) _ _ λ s. tt

  table_offsets-NoPanic :
      (strict : Bool) (fields : ℕ) (slice : Bytes) → NoPanic (table_offsets P strict fields slice)
  unfolding table_offsets
  table_offsets-NoPanic strict fields slice =
      NoPanic-bind (check_total_size P slice) _ (check_total_size-NoPanic slice) λ total e.
        NoPanic-fail_if (ltb (length slice) (4 * 2)) _ _ λ long.
          NoPanic-bind (check_offset_first P slice) _
            (check_offset_first-NoPanic slice (ground arith))
            λ first f. NoPanic-fail_if (ltb (first / 4 - 1) fields) _ _ λ e₁.
              NoPanic-fail_if (strict && ltb fields (first / 4 - 1)) _ _
                λ e₂. read_offsets-NoPanic slice first total f

  pub dynvec_offsets-NoPanic : (slice : Bytes) → NoPanic (dynvec_offsets P slice)
  unfolding dynvec_offsets
  dynvec_offsets-NoPanic slice =
      NoPanic-bind (check_total_size P slice) _ (check_total_size-NoPanic slice) λ total e.
        NoPanic-if (length slice == 4) _ _ (λ e'. tt)
          λ e'. NoPanic-fail_if (ltb (length slice) (4 * 2)) _ _ λ long.
            NoPanic-bind (check_offset_first P slice) _
              (check_offset_first-NoPanic slice (ground arith))
              λ first f. read_offsets-NoPanic slice first total f

  module _ (L : NumberLaws P) where
    -- Verifying a table never panics, on any bytes, if the verifiers of its fields never do.
    pub verify_table-NoPanic :
        (strict : Bool) (fields : List (Bytes → Verified))
        → All IsSafe fields
        → IsSafe (verify_table P strict fields)
    unfolding verify_table
    verify_table-NoPanic strict fields safe slice =
        NoPanic-bind (table_offsets P strict (length fields) slice) _
          (table_offsets-NoPanic strict (length fields) slice)
          λ offsets e.
            let (count, o, enough, exact) =
              table_offsets-IsOffsets P L strict (length fields) slice offsets e in
            verify_fields-NoPanic fields slice offsets safe (omega (arith, o.size)) o.sorted
              (sorted-bounded offsets count (length slice) o.sorted o.size o.end)

    -- The same of a vector of items of dynamic size.
    pub verify_dynvec-NoPanic :
        (verify : Bytes → Verified) → IsSafe verify → IsSafe (verify_dynvec P verify)
    unfolding verify_dynvec
    verify_dynvec-NoPanic verify safe slice =
        NoPanic-bind (dynvec_offsets P slice) _ (dynvec_offsets-NoPanic slice) λ offsets e.
          elim (dynvec_offsets-IsOffsets P L slice offsets e) [
            | inl (empty, none) ↦ rw empty (unfold verify_items in tt)
            | inr (count, o) ↦
                verify_items-NoPanic verify slice offsets safe o.sorted
                  (sorted-bounded offsets count (length slice) o.sorted o.size o.end)
          ]
