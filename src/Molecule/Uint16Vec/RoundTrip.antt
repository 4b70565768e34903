-- ===== src/Molecule/Uint16Vec/RoundTrip.antt =====
-- The readers of `Uint16Vec` against its builder.
use mathlib.Core.List.{append_assoc}
use ckb_vote_poc.Base.{
  ◌+◌, ◌*◌, ◌^◌, ◌<◌, ◌≡◌, refl, sym, ap, ap₂, ◌∙◌, List, [], ◌∷◌, ◌++◌, length, length-append, All,
  ◌==◌, ok, >>=-eq-ok, fail_if-eq-ok, length-drop, take, drop, suc, zero, ltb, not, arith, ℕ, Bool,
  Bool-cases, inl, inr, length-take, ◌≤◌,
}
use ckb_vote_poc.Chain.{Bytes, Packages, NumberLaws}
use ckb_vote_poc.Molecule.{slice_range, concat, collect, read_number}
use ckb_vote_poc.Molecule.Iteration.{drain_with-collect}
use ckb_vote_poc.Molecule.Layout.{slice_range-append, read_number-append}
use ckb_vote_poc.Molecule.Pieces.{IsBytes, take-append-drop}
use ckb_vote_poc.Molecule.Canonical.{pack-read_number}
use ckb_vote_poc.Molecule.Uint16Vec.{get_unchecked, len, iter, verify, build}
use ckb_vote_poc.Molecule.Uint16Vec.Builder as Builder

-- Each item has the two bytes of a `Uint16`.
abbrev pub IsUint16s : List Bytes → Type 0
IsUint16s = All (λ item. length item ≡ 2)

pub length-concat :
    (items : List Bytes) → IsUint16s items → length (concat items) ≡ 2 * length items
unfolding concat
length-concat [] sizes = refl
length-concat (item ∷ items) (size, sizes) =
    omega (arith, length-append item (concat items), length-concat items sizes)

-- Reading the last items of a slice that consists of four bytes, some items, and these.
collect-concat :
    (count pre : Bytes) (items : List Bytes) (index : ℕ)
    → length count ≡ 4
    → length pre ≡ 2 * index
    → IsUint16s items
    → collect (get_unchecked (count ++ (pre ++ concat items))) (length items) index ≡ ok items
unfolding collect get_unchecked concat
collect-concat count pre [] index four before sizes = refl
collect-concat count pre (item ∷ items) index four before (size, sizes) =
    let start = 4 + 2 * index in
    let here : slice_range (count ++ (pre ++ (item ++ concat items))) start (start + 2) ≡ ok item =
      ap (λ s. slice_range s start (start + 2))
        (sym (append_assoc count pre (item ++ concat items)))
      ∙ slice_range-append (count ++ pre) item (concat items) start (start + 2)
          (omega (arith, length-append count pre)) (omega (arith, length-append count pre)) in
    let rest : collect (get_unchecked (count ++ (pre ++ (item ++ concat items)))) (length items)
          (index + 1)
        ≡ ok items =
      ap (λ s. collect (get_unchecked (count ++ s)) (length items) (index + 1))
        (sym (append_assoc pre item (concat items)))
      ∙ collect-concat count (pre ++ item) items (index + 1) four
          (omega (arith, length-append pre item)) sizes in
    rw (here, rest) refl

-- The items of two bytes in a list of bytes.
abbrev pairs : Bytes → List Bytes
pairs (a ∷ b ∷ rest) = (a ∷ b ∷ []) ∷ pairs rest
pairs _ = []

pairs_lem :
    (items : ℕ) (bytes : Bytes)
    → length bytes ≡ 2 * items
    → (concat (pairs bytes) ≡ bytes) × (length (pairs bytes) ≡ items) × IsUint16s (pairs bytes)
unfolding concat
pairs_lem zero [] e = (refl, refl, tt)
pairs_lem zero (a ∷ rest) e = absurd (omega arith)
pairs_lem (suc items) [] e = absurd (omega arith)
pairs_lem (suc items) (a ∷ []) e = absurd (omega arith)
pairs_lem (suc items) (a ∷ b ∷ rest) e =
    let (same, many, sizes) = pairs_lem items rest (omega arith) in
    (ap (λ l. a ∷ b ∷ l) same, ap suc many, (refl, sizes))

module _ (P : Packages) (L : NumberLaws P) where
  -- If numbers follow the molecule format, iterating over a built `Uint16Vec` yields the items that it
  -- was built from, as long as each has two bytes and their count fits a molecule number.
  pub Uint16Vec_iter-build :
      (items : List Bytes)
      → IsUint16s items
      → length items < 2 ^ 32
      → iter P (build P items) ≡ ok items
  unfolding iter len build
  Uint16Vec_iter-build items sizes few =
      let count : read_number P (P.pack_number (length items) ++ concat items) 0
          ≡ ok (length items) =
        read_number-append P L [] (concat items) 0 (length items) refl few in
      rw count (
        collect-concat (P.pack_number (length items)) [] items 0 (L.pack_length (length items)) refl
          sizes)

  -- What the verification of a slice shows.
  pub verify-eq-ok :
      (slice : Bytes) (compatible : Bool)
      → verify P slice compatible ≡ ok tt
      → (count : ℕ) × (4 ≤ length slice)
        × (read_number P slice 0 ≡ ok count)
        × (length slice ≡ 4 + 2 * count)
  unfolding verify
  verify-eq-ok slice compatible h =
      let (e, h₁) = fail_if-eq-ok (ltb (length slice) 4) _ _ h in
      let (count, r, h₂) = >>=-eq-ok (read_number P slice 0) _ h₁ in
      elim (Bool-cases (count == 0)) [
        | inl empty ↦
            let (same, h₃) = fail_if-eq-ok (not (length slice == 4)) _ _ (rw empty at h₂) in
            (count, ground arith, r, ground arith)
        | inr more ↦
            let (same, h₃) =
              fail_if-eq-ok (not (length slice == 4 + 2 * count)) _ _ (rw more at h₂) in
            (count, ground arith, r, ground arith)
      ]

  -- If numbers follow the molecule format, a `Uint16Vec` that the verification accepts is built again,
  -- byte for byte, from the builder that `as_builder` makes of it, and that builder holds the items that
  -- iterating over the vector yields.
  pub uint16_vec_rebuild :
      (slice : Bytes) (compatible : Bool)
      → IsBytes slice
      → verify P slice compatible ≡ ok tt
      → (items : List Bytes) × (iter P slice ≡ ok items)
        × (Builder.as_builder P slice ≡ ok (record { items = items }))
        × (Builder.build P (record { items = items }) ≡ slice)
  unfolding iter len build Builder.as_builder Builder.into_iter Builder.build Builder.extend
  uint16_vec_rebuild slice compatible bytes h =
      let (count, four, r, size) = verify-eq-ok slice compatible h in
      let items = pairs (drop 4 slice) in
      let (same, many, sizes) =
        pairs_lem count (drop 4 slice) (omega (arith, length-drop 4 slice)) in
      let cut : take 4 slice ++ concat items ≡ slice =
        ap (λ l. take 4 slice ++ l) same ∙ take-append-drop 4 slice in
      let read : collect (get_unchecked slice) count 0 ≡ ok items =
        ap₂ (λ s n. collect (get_unchecked s) n 0) (sym cut) (sym many)
        ∙ collect-concat (take 4 slice) [] items 0 (omega (arith, length-take 4 slice)) refl
            sizes in
      let drained =
        drain_with-collect get_unchecked slice (suc count) count 0 count (omega arith)
          (omega arith) in
      (
        items,
        rw r read,
        rw (r, drained ∙ read) refl,
        ap₂ (λ x y. x ++ y) (ap P.pack_number many ∙ pack-read_number P L slice count bytes four r)
              same
            ∙ take-append-drop 4 slice,
      )
