-- ===== src/Molecule/Offsets.antt =====
-- What the checks of a table or vector establish about its offsets.
use ckb_vote_poc.Base.{
  ℕ, zero, suc, ◌+◌, ◌-◌, ◌*◌, ◌/◌, ◌%◌, ◌≤◌, ◌<◌, ◌≡◌, refl, sym, ap, subst, ◌∙◌, inl, inr,
  Bool-cases, true, false, not, ◌&&◌, ◌||◌, some, List, [], ◌∷◌, ◌++◌, length, length-append,
  length-drop, take, drop, get_elem?, ltb, leb, ◌==◌, ok, >>=-eq-ok, fail_if-eq-ok, ok_inj, arith,
}
use ckb_vote_poc.Chain.{Bytes, Packages, NumberLaws}
use ckb_vote_poc.Molecule.{
  slice_range, any_decrease, read_number, chunk_numbers, check_total_size, check_offset_first,
  read_offsets, item_count,
}
use ckb_vote_poc.Molecule.Chunks.{quads, quads_lem, length-chunk_numbers, get-chunk_numbers}

pub slice_range-eq-ok :
    (slice part : Bytes) (start end : ℕ)
    → slice_range slice start end ≡ ok part
    → (start ≤ end) × (end ≤ length slice) × (part ≡ take (end - start) (drop start slice))
unfolding slice_range
slice_range-eq-ok slice part start end h =
    elim (Bool-cases (leb start end && leb end (length slice))) [
      | inl e ↦ (ground arith, ground arith, sym (ok_inj (rw e at h)))
      | inr e ↦ let p = rw e at h in cc p
    ]

get-append_left : (xs ys : List ℕ) (k : ℕ) → k < length xs → get_elem? (xs ++ ys) k ≡ get_elem? xs k
get-append_left [] ys k h = absurd (omega arith)
get-append_left (x ∷ xs) ys zero h = refl
get-append_left (x ∷ xs) ys (suc k) h = get-append_left xs ys k (omega arith)

get-append_last : (xs : List ℕ) (y : ℕ) → get_elem? (xs ++ (y ∷ [])) (length xs) ≡ some y
get-append_last [] y = refl
get-append_last (x ∷ xs) y = get-append_last xs y

drop-nil : (n : ℕ) → drop {A = ℕ} n [] ≡ []
drop-nil zero = refl
drop-nil (suc n) = refl

pub drop-drop : (m n k : ℕ) (slice : Bytes) → k ≡ n + m → drop m (drop n slice) ≡ drop k slice
drop-drop m zero k slice e = ap (λ j. drop j slice) (omega arith)
drop-drop m (suc n) zero slice e = absurd (omega arith)
drop-drop m (suc n) (suc k) [] e = drop-nil m
drop-drop m (suc n) (suc k) (x ∷ slice) e = drop-drop m n k slice (omega arith)

module _ (P : Packages) where
  -- The offsets of `count` parts, and the size of the whole after them.
  pub record IsOffsets (slice : Bytes) (offsets : List ℕ) (count : ℕ) : Type 0 where
    pub size : length offsets ≡ suc count
    pub nonempty : 0 < count
    pub counted : item_count P slice ≡ ok count
    pub start :
        (k : ℕ)
        → k < count
        → (offset : ℕ) × (get_elem? offsets k ≡ some offset)
          × (read_number P slice (4 + 4 * k) ≡ ok offset)
    pub end : get_elem? offsets count ≡ some (length slice)
    pub sorted : any_decrease offsets ≡ false

  pub check_total_size-eq-ok :
      (slice : Bytes) (total : ℕ)
      → check_total_size P slice ≡ ok total
      → (read_number P slice 0 ≡ ok total) × (length slice ≡ total)
  unfolding check_total_size
  check_total_size-eq-ok slice total h =
      let (e₁, h₁) = fail_if-eq-ok (ltb (length slice) 4) _ _ h in
      let (total', e₂, h₂) = >>=-eq-ok (read_number P slice 0) _ h₁ in
      let (e₃, h₃) = fail_if-eq-ok (not (length slice == total')) _ _ h₂ in
      let same : total' ≡ total = ok_inj h₃ in (e₂ ∙ ap ok same, ground arith)

  pub check_offset_first-eq-ok :
      (slice : Bytes) (offset : ℕ)
      → check_offset_first P slice ≡ ok offset
      → (read_number P slice 4 ≡ ok offset)
        × (offset % 4 ≡ 0)
        × (8 ≤ offset)
        × (offset ≤ length slice)
  unfolding check_offset_first
  check_offset_first-eq-ok slice offset h =
      let (offset', e₁, h₁) = >>=-eq-ok (read_number P slice 4) _ h in
      let (e₂, h₂) = fail_if-eq-ok (not (offset' % 4 == 0) || ltb offset' (4 * 2)) _ _ h₁ in
      let (e₃, h₃) = fail_if-eq-ok (ltb (length slice) offset') _ _ h₂ in
      let same : offset' ≡ offset = ok_inj h₃ in
      let aligned : offset' % 4 ≡ 0 = ground arith in
      let after : 8 ≤ offset' = ground arith in
      let inside : offset' ≤ length slice = ground arith in
      (e₁ ∙ ap ok same, omega arith, omega arith, omega arith)

  pub read_number-inside :
      (slice : Bytes) (at : ℕ)
      → at + 4 ≤ length slice
      → read_number P slice at ≡ ok (P.unpack_number (drop at slice))
  unfolding read_number
  read_number-inside slice at h =
      let inside : leb (at + 4) (length slice) ≡ true = ground arith in rw inside refl

  area_numbers : ℕ → Bytes → List ℕ
  area_numbers count slice = chunk_numbers P (take (quads count) (drop 4 slice))

  counted_by :
      (slice : Bytes) (total first count : ℕ)
      → read_number P slice 0 ≡ ok total
      → length slice ≡ total
      → read_number P slice 4 ≡ ok first
      → first ≡ 4 + quads count
      → first ≤ length slice
      → 0 < count
      → item_count P slice ≡ ok count
  unfolding item_count
  counted_by slice total first count r₀ n r₄ f inside p =
      let large : (total == 4) ≡ false = ground (arith, quads_lem count) in
      let some_offset : (first / 4 == 0) ≡ false = ground (arith, quads_lem count) in
      let same : first / 4 - 1 ≡ count = omega (arith, quads_lem count) in
      rw (r₀, large, r₄, some_offset, same) refl

  area-IsOffsets :
      NumberLaws P
      → (slice : Bytes) (total first count : ℕ) → read_number P slice 0 ≡ ok total
      → length slice ≡ total
      → read_number P slice 4 ≡ ok first
      → first ≡ 4 + quads count
      → first ≤ length slice
      → 0 < count
      → any_decrease (area_numbers count slice ++ (total ∷ [])) ≡ false
      → IsOffsets slice (area_numbers count slice ++ (total ∷ [])) count
  unfolding area_numbers
  area-IsOffsets L slice total first count r₀ n r₄ f inside p sorted =
      let numbers = chunk_numbers P (take (quads count) (drop 4 slice)) in
      let room : quads count ≤ length (drop 4 slice) = omega (arith, length-drop 4 slice) in
      let many : length numbers ≡ count = length-chunk_numbers P count (drop 4 slice) room in
      record {
        size = omega (arith, length-append numbers (total ∷ []));
        nonempty = p;
        counted = counted_by slice total first count r₀ n r₄ f inside p;
        start = λ k h.
            let place : 4 + 4 * k ≡ 4 + quads k = omega (arith, quads_lem k) in
            (
              P.unpack_number (drop (4 + 4 * k) slice),
              get-append_left numbers (total ∷ []) k (omega arith)
                  ∙ get-chunk_numbers P L count k (drop 4 slice) room h
                  ∙ ap (λ rest. some (P.unpack_number rest))
                      (drop-drop (quads k) 4 (4 + 4 * k) slice place),
              read_number-inside slice (4 + 4 * k) (omega (arith, quads_lem count)),
            );
        end =
            ap (get_elem? (numbers ++ (total ∷ []))) (sym many)
            ∙ get-append_last numbers total
            ∙ ap some (sym n);
        sorted = sorted;
      }

  pub read_offsets-IsOffsets :
      NumberLaws P
      → (slice : Bytes) (first total : ℕ) (offsets : List ℕ) → read_number P slice 0 ≡ ok total
      → length slice ≡ total
      → check_offset_first P slice ≡ ok first
      → read_offsets P slice first total ≡ ok offsets
      → IsOffsets slice offsets (first / 4 - 1)
  unfolding read_offsets area_numbers
  read_offsets-IsOffsets L slice first total offsets r₀ n f h =
      let (area, e₁, h₁) = >>=-eq-ok (slice_range slice 4 first) _ h in
      let (sorted, h₂) =
        fail_if-eq-ok (any_decrease (chunk_numbers P area ++ (total ∷ []))) _ _ h₁ in
      let (lo, hi, is_area) = slice_range-eq-ok slice area 4 first e₁ in
      let (r₄, aligned, after, inside) = check_offset_first-eq-ok slice first f in
      let count = first / 4 - 1 in
      let width : first - 4 ≡ quads count = omega (arith, quads_lem count) in
      let same : area ≡ take (quads count) (drop 4 slice) =
        is_area ∙ ap (λ k. take k (drop 4 slice)) width in
      subst (λ l. IsOffsets slice l count)
        (ap (λ a. chunk_numbers P a ++ (total ∷ [])) (sym same) ∙ ok_inj h₂)
        (area-IsOffsets L slice total first count r₀ n r₄ (omega (arith, quads_lem count)) inside
          (omega arith)
          (ap (λ a. any_decrease (chunk_numbers P a ++ (total ∷ []))) (sym same) ∙ sorted))
