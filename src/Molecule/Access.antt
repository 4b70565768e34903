-- ===== src/Molecule/Access.antt =====
-- The accessors of a table or vector that was verified.
use ckb_vote_poc.Base.{
  ℕ, zero, suc, ◌+◌, ◌-◌, ◌*◌, ◌/◌, ◌≤◌, ◌<◌, ◌≡◌, refl, sym, ap, ◌∙◌, ◌⊎◌, inl, inr, Bool,
  Bool-cases, true, ◌&&◌, some, List, [], ◌∷◌, length, get_elem?, ltb, ◌==◌, Result, ok, ◌>>=◌,
  >>=-eq-ok, fail_if-eq-ok, ok_inj, Returns, All, arith,
}
use ckb_vote_poc.Chain.{Bytes, Packages, NumberLaws, Verified, VerificationError}
use ckb_vote_poc.Molecule.{
  slice_range, collect, verify_items, verify_fields, read_number, check_total_size,
  check_offset_first, dynvec_offsets, verify_dynvec, table_offsets, verify_table, item_count,
  inner_field, last_field, get_unchecked,
}
use ckb_vote_poc.Molecule.Offsets.{IsOffsets, check_total_size-eq-ok, read_offsets-IsOffsets}

-- The part between two neighbouring offsets.
abbrev PartAt : Bytes → List ℕ → ℕ → (Bytes → Type 0) → Type 0
PartAt slice offsets k F =
    (start end : ℕ) × (part : Bytes) × (get_elem? offsets k ≡ some start)
    × (get_elem? offsets (suc k) ≡ some end)
    × (slice_range slice start end ≡ ok part)
    × F part

verify_fields-part :
    (fields : List (Bytes → Verified)) (slice : Bytes) (offsets : List ℕ) (k : ℕ)
    (verify : Bytes → Verified)
    → verify_fields fields slice offsets ≡ ok tt
    → get_elem? fields k ≡ some verify
    → PartAt slice offsets k (λ part. verify part ≡ ok tt)
unfolding verify_fields
verify_fields-part [] slice offsets k v h e = cc
verify_fields-part (w ∷ more) slice [] k v h e = cc
verify_fields-part (w ∷ more) slice (start ∷ []) k v h e = cc
verify_fields-part (w ∷ more) slice (start ∷ end ∷ rest) zero v h e =
    let (part, e₁, h₁) = >>=-eq-ok (slice_range slice start end) _ h in
    let (u, e₂, h₂) = >>=-eq-ok (w part) _ h₁ in
    let same : w ≡ v = cc e in (start, end, part, refl, refl, e₁, ap (λ f. f part) (sym same) ∙ e₂)
verify_fields-part (w ∷ more) slice (start ∷ end ∷ rest) (suc k) v h e =
    let (part, e₁, h₁) = >>=-eq-ok (slice_range slice start end) _ h in
    let (u, e₂, h₂) = >>=-eq-ok (w part) _ h₁ in verify_fields-part more slice (end ∷ rest) k v h₂ e

verify_items-part :
    (verify : Bytes → Verified) (slice : Bytes) (offsets : List ℕ) (k : ℕ)
    → verify_items verify slice offsets ≡ ok tt
    → suc k < length offsets
    → PartAt slice offsets k (λ part. verify part ≡ ok tt)
unfolding verify_items
verify_items-part v slice [] k h p = absurd (omega arith)
verify_items-part v slice (start ∷ []) k h p = absurd (omega arith)
verify_items-part v slice (start ∷ end ∷ rest) zero h p =
    let (part, e₁, h₁) = >>=-eq-ok (slice_range slice start end) _ h in
    let (u, e₂, h₂) = >>=-eq-ok (v part) _ h₁ in (start, end, part, refl, refl, e₁, e₂)
verify_items-part v slice (start ∷ end ∷ rest) (suc k) h p =
    let (part, e₁, h₁) = >>=-eq-ok (slice_range slice start end) _ h in
    let (u, e₂, h₂) = >>=-eq-ok (v part) _ h₁ in
    verify_items-part v slice (end ∷ rest) k h₂ (omega arith)

pub collect-All :
    (F : Bytes → Type 0) (get : ℕ → Result VerificationError Bytes) (left idx : ℕ)
    → ((k : ℕ) → idx ≤ k → k < idx + left → Returns F (get k))
    → Returns (All F) (collect get left idx)
unfolding collect
collect-All F get zero idx h = ([], refl, tt)
collect-All F get (suc left) idx h =
    let (item, e, p) = h idx (omega arith) (omega arith) in
    let (rest, e', ps) =
      collect-All F get left (idx + 1) λ k lo hi. h k (omega arith) (omega arith) in
    (item ∷ rest, rw (e, e') refl, (p, ps))

module _ (P : Packages) (L : NumberLaws P) where
  pub table_offsets-IsOffsets :
      (strict : Bool) (fields : ℕ) (slice : Bytes) (offsets : List ℕ)
      → table_offsets P strict fields slice ≡ ok offsets
      → (count : ℕ) × IsOffsets P slice offsets count
        × (fields ≤ count)
        × (strict ≡ true → count ≡ fields)
  unfolding table_offsets
  table_offsets-IsOffsets strict fields slice offsets h =
      let (total, e₁, h₁) = >>=-eq-ok (check_total_size P slice) _ h in
      let (e₂, h₂) = fail_if-eq-ok (ltb (length slice) (4 * 2)) _ _ h₁ in
      let (first, e₃, h₃) = >>=-eq-ok (check_offset_first P slice) _ h₂ in
      let (e₄, h₄) = fail_if-eq-ok (ltb (first / 4 - 1) fields) _ _ h₃ in
      let (e₅, h₅) = fail_if-eq-ok (strict && ltb fields (first / 4 - 1)) _ _ h₄ in
      let (r₀, n) = check_total_size-eq-ok P slice total e₁ in
      let enough : fields ≤ first / 4 - 1 = ground arith in
      (
        first / 4 - 1,
        read_offsets-IsOffsets P L slice first total offsets r₀ n e₃ h₅,
        enough,
        λ s. ground arith,
      )

  -- An empty vector, or one with offsets.
  pub dynvec_offsets-IsOffsets :
      (slice : Bytes) (offsets : List ℕ)
      → dynvec_offsets P slice ≡ ok offsets
      → ((offsets ≡ []) × (item_count P slice ≡ ok 0))
        ⊎ ((count : ℕ) × IsOffsets P slice offsets count)
  unfolding dynvec_offsets item_count
  dynvec_offsets-IsOffsets slice offsets h =
      let (total, e₁, h₁) = >>=-eq-ok (check_total_size P slice) _ h in
      let (r₀, n) = check_total_size-eq-ok P slice total e₁ in
      elim (Bool-cases (length slice == 4)) [
        | inl empty ↦
            let four : (total == 4) ≡ true = ground arith in
            inl (sym (ok_inj (rw empty at h₁)), rw (r₀, four) refl)
        | inr nonempty ↦
            let (e₂, h₂) = fail_if-eq-ok (ltb (length slice) (4 * 2)) _ _ (rw nonempty at h₁) in
            let (first, e₃, h₃) = >>=-eq-ok (check_offset_first P slice) _ h₂ in
            inr (first / 4 - 1, read_offsets-IsOffsets P L slice first total offsets r₀ n e₃ h₃)
      ]

  -- Two offsets that were read and that bound a part.
  read_part :
      (slice : Bytes) (offsets : List ℕ) (count k : ℕ) (F : Bytes → Type 0)
      → IsOffsets P slice offsets count
      → suc k < count
      → PartAt slice offsets k F
      → Returns F (inner_field P slice (4 + 4 * k))
  unfolding inner_field
  read_part slice offsets count k F o h (start, end, part, e₁, e₂, e₃, p) =
      let (a, g₁, r₁) = o.start k (omega arith) in
      let (b, g₂, r₂) = o.start (suc k) h in
      let same : a ≡ start = cc (g₁, e₁) in
      let same' : b ≡ end = cc (g₂, e₂) in
      let next : 4 + 4 * suc k ≡ 4 + 4 * k + 4 = omega arith in
      let second : read_number P slice (4 + 4 * k + 4) ≡ ok end =
        ap (read_number P slice) (sym next) ∙ r₂ ∙ ap ok same' in
      (part, rw (r₁, same, second) e₃, p)

  -- A part that ends with the whole, if it is the last, or where the next one begins.
  read_last :
      (slice : Bytes) (offsets : List ℕ) (count k fields : ℕ) (F : Bytes → Type 0)
      → IsOffsets P slice offsets count
      → fields ≡ suc k
      → fields ≤ count
      → PartAt slice offsets k F
      → Returns F (last_field P fields slice)
  unfolding last_field
  read_last slice offsets count k fields F o f h (start, end, part, e₁, e₂, e₃, p) =
      let (a, g₁, r₁) = o.start k (omega arith) in
      let same : a ≡ start = cc (g₁, e₁) in
      let at : 4 * fields ≡ 4 + 4 * k = omega arith in
      let first : read_number P slice (4 * fields) ≡ ok start =
        ap (read_number P slice) at ∙ r₁ ∙ ap ok same in
      elim (Bool-cases (fields == count)) [
        | inl all ↦
            let place : count ≡ suc k = ground arith in
            let whole : length slice ≡ end = cc (o.end, ap (get_elem? offsets) place, e₂) in
            (part, rw (first, o.counted, all, whole) e₃, p)
        | inr extra ↦
            let inside : suc k < count = ground arith in
            let (b, g₂, r₂) = o.start (suc k) inside in
            let same' : b ≡ end = cc (g₂, e₂) in
            let next : 4 * fields + 4 ≡ 4 + 4 * suc k = omega arith in
            let second : read_number P slice (4 * fields + 4) ≡ ok end =
              ap (read_number P slice) next ∙ r₂ ∙ ap ok same' in
            (part, rw (first, o.counted, extra, second) e₃, p)
      ]

  read_item :
      (slice : Bytes) (offsets : List ℕ) (count k : ℕ) (F : Bytes → Type 0)
      → IsOffsets P slice offsets count
      → k < count
      → PartAt slice offsets k F
      → Returns F (get_unchecked P slice k)
  unfolding get_unchecked
  read_item slice offsets count k F o h (start, end, part, e₁, e₂, e₃, p) =
      let (a, g₁, r₁) = o.start k h in
      let same : a ≡ start = cc (g₁, e₁) in
      let at : 4 * (1 + k) ≡ 4 + 4 * k = omega arith in
      let first : read_number P slice (4 * (1 + k)) ≡ ok start =
        ap (read_number P slice) at ∙ r₁ ∙ ap ok same in
      elim (Bool-cases (k == count - 1)) [
        | inl final ↦
            let place : count ≡ suc k = ground arith in
            let whole : length slice ≡ end = cc (o.end, ap (get_elem? offsets) place, e₂) in
            (part, rw (first, o.counted, final, whole) e₃, p)
        | inr more ↦
            let inside : suc k < count = ground arith in
            let (b, g₂, r₂) = o.start (suc k) inside in
            let same' : b ≡ end = cc (g₂, e₂) in
            let next : 4 * (1 + k) + 4 ≡ 4 + 4 * suc k = omega arith in
            let second : read_number P slice (4 * (1 + k) + 4) ≡ ok end =
              ap (read_number P slice) next ∙ r₂ ∙ ap ok same' in
            (part, rw (first, o.counted, more, second) e₃, p)
      ]

  -- After a table was verified, reading a field that is not the last of the checked ones returns a
  -- part of the table, and the field's verifier accepts it.
  pub verify_table-inner_field :
      (strict : Bool) (fields : List (Bytes → Verified)) (slice : Bytes) (k : ℕ)
      (verify : Bytes → Verified)
      → verify_table P strict fields slice ≡ ok tt
      → get_elem? fields k ≡ some verify
      → suc k < length fields
      → Returns (λ part. verify part ≡ ok tt) (inner_field P slice (4 + 4 * k))
  unfolding verify_table
  verify_table-inner_field strict fields slice k verify h e p =
      let (offsets, e₁, h₁) = >>=-eq-ok (table_offsets P strict (length fields) slice) _ h in
      let (count, o, enough, exact) =
        table_offsets-IsOffsets strict (length fields) slice offsets e₁ in
      read_part slice offsets count k _ o (omega arith)
        (verify_fields-part fields slice offsets k verify h₁ e)

  -- The same of the last of the checked fields, whether the table has more fields or not.
  pub verify_table-last_field :
      (strict : Bool) (fields : List (Bytes → Verified)) (slice : Bytes) (k : ℕ)
      (verify : Bytes → Verified)
      → verify_table P strict fields slice ≡ ok tt
      → get_elem? fields k ≡ some verify
      → length fields ≡ suc k
      → Returns (λ part. verify part ≡ ok tt) (last_field P (length fields) slice)
  unfolding verify_table
  verify_table-last_field strict fields slice k verify h e p =
      let (offsets, e₁, h₁) = >>=-eq-ok (table_offsets P strict (length fields) slice) _ h in
      let (count, o, enough, exact) =
        table_offsets-IsOffsets strict (length fields) slice offsets e₁ in
      read_last slice offsets count k (length fields) _ o p enough
        (verify_fields-part fields slice offsets k verify h₁ e)

  -- After a vector of items of dynamic size was verified, all its items can be read, and the item's
  -- verifier accepts each of them.
  pub verify_dynvec-items :
      (verify : Bytes → Verified) (slice : Bytes)
      → verify_dynvec P verify slice ≡ ok tt
      → Returns
          (All (λ item. verify item ≡ ok tt))
          (do count ← item_count P slice; collect (get_unchecked P slice) count 0)
  unfolding verify_dynvec collect
  verify_dynvec-items verify slice h =
      let (offsets, e₁, h₁) = >>=-eq-ok (dynvec_offsets P slice) _ h in
      elim (dynvec_offsets-IsOffsets slice offsets e₁) [
        | inl (empty, none) ↦ ([], rw none refl, tt)
        | inr (count, o) ↦ rw o.counted (
            collect-All (λ item. verify item ≡ ok tt) (get_unchecked P slice) count 0
              λ k lo hi.
                read_item slice offsets count k (λ item. verify item ≡ ok tt) o (omega arith)
                  (verify_items-part verify slice offsets k h₁ (omega (arith, o.size))))
      ]
