-- ===== src/Molecule/Pieces.antt =====
-- The pieces of a slice between its offsets.
use mathlib.Core.List.{append_assoc}
use ckb_vote_poc.Base.{
  ℕ, zero, suc, ◌+◌, ◌-◌, ◌<◌, ◌≡◌, refl, sym, ap, ap₂, ◌∙◌, List, [], ◌∷◌, ◌++◌, length,
  length-append, length-take, length-drop, take, drop, All, ok, >>=-eq-ok, arith,
}
use ckb_vote_poc.Chain.{Bytes, Verified}
use ckb_vote_poc.Molecule.{slice_range, verify_fields, concat}
use ckb_vote_poc.Molecule.Offsets.{slice_range-eq-ok, drop-drop}
use ckb_vote_poc.Molecule.Accepted.{part_ends, offsets_of, Accepted}

-- Every number is a byte.
abbrev pub IsBytes : Bytes → Type 0
IsBytes = All (λ byte. byte < 256)

pub take-append-drop : (n : ℕ) (xs : Bytes) → take n xs ++ drop n xs ≡ xs
take-append-drop zero xs = refl
take-append-drop (suc n) [] = refl
take-append-drop (suc n) (x ∷ xs) = ap (λ l. x ∷ l) (take-append-drop n xs)

pub drop_all : (xs : Bytes) → drop (length xs) xs ≡ []
drop_all [] = refl
drop_all (x ∷ xs) = drop_all xs

pub take-IsBytes : (n : ℕ) (xs : Bytes) → IsBytes xs → IsBytes (take n xs)
take-IsBytes zero xs p = tt
take-IsBytes (suc n) [] p = tt
take-IsBytes (suc n) (x ∷ xs) (p, ps) = (p, take-IsBytes n xs ps)

pub drop-IsBytes : (n : ℕ) (xs : Bytes) → IsBytes xs → IsBytes (drop n xs)
drop-IsBytes zero xs p = p
drop-IsBytes (suc n) [] p = tt
drop-IsBytes (suc n) (x ∷ xs) (p, ps) = drop-IsBytes n xs ps

-- Lists that agree with a last element agree without it.
pub snoc_injective :
    (xs ys : List ℕ) (a b : ℕ) → xs ++ (a ∷ []) ≡ ys ++ (b ∷ []) → (xs ≡ ys) × (a ≡ b)
snoc_injective [] [] a b h = (refl, cc h)
snoc_injective [] (y ∷ []) a b h = cc
snoc_injective [] (y ∷ z ∷ ys) a b h = cc
snoc_injective (x ∷ []) [] a b h = cc
snoc_injective (x ∷ z ∷ xs) [] a b h = cc
snoc_injective (x ∷ xs) (y ∷ ys) a b h =
    let (same, last) = snoc_injective xs ys a b (cc h) in
    let heads : x ≡ y = cc h in (ap₂ (λ z zs. z ∷ zs) heads same, last)

-- The offsets of the parts.
abbrev pub starts_of : ℕ → List Bytes → List ℕ
starts_of start [] = []
starts_of start (part ∷ parts) = start ∷ starts_of (start + length part) parts

pub offsets_of-starts_of :
    (start : ℕ) (parts : List Bytes)
    → offsets_of start parts ≡ starts_of start parts ++ ((start + length (concat parts)) ∷ [])
unfolding concat
offsets_of-starts_of start [] = ap (λ n. n ∷ []) (omega arith)
offsets_of-starts_of start (part ∷ parts) =
    let end : start + length part + length (concat parts) ≡ start + length (part ++ concat parts) =
      omega (arith, length-append part (concat parts)) in
    ap (λ l. start ∷ l)
      (offsets_of-starts_of (start + length part) parts
        ∙ ap (λ n. starts_of (start + length part) parts ++ (n ∷ [])) end)

-- The parts between the offsets that the loop over the fields goes through.
pub verify_fields-parts :
    (fields : List (Bytes → Verified)) (slice : Bytes) (start : ℕ) (ends : List ℕ)
    → length ends ≡ length fields
    → verify_fields fields slice (start ∷ ends) ≡ ok tt
    → (parts : List Bytes) × Accepted fields parts
      × (ends ≡ part_ends start parts)
      × (drop start slice ≡ concat parts ++ drop (start + length (concat parts)) slice)
unfolding verify_fields concat
verify_fields-parts [] slice start [] n h = ([], tt, refl, ap (λ k. drop k slice) (omega arith))
verify_fields-parts [] slice start (end ∷ ends) n h = absurd (omega arith)
verify_fields-parts (verify ∷ fields) slice start [] n h = absurd (omega arith)
verify_fields-parts (verify ∷ fields) slice start (end ∷ ends) n h =
    let (part, e₁, h₁) = >>=-eq-ok (slice_range slice start end) _ h in
    let (u, e₂, h₂) = >>=-eq-ok (verify part) _ h₁ in
    let (parts, accepted, same_ends, rest) =
      verify_fields-parts fields slice end ends (omega arith) h₂ in
    let (lo, hi, is_part) = slice_range-eq-ok slice part start end e₁ in
    let at : end ≡ start + length part = omega (
      arith,
      ap length is_part,
      length-take (end - start) (drop start slice),
      length-drop start slice,
    ) in
    let cut : drop start slice ≡ part ++ drop end slice =
      sym (take-append-drop (end - start) (drop start slice))
      ∙ ap₂ (λ x y. x ++ y) (sym is_part) (drop-drop (end - start) start end slice (omega arith)) in
    let last : end + length (concat parts) ≡ start + length (part ++ concat parts) =
      omega (arith, length-append part (concat parts)) in
    (
      part ∷ parts,
      (e₂, accepted),
      ap₂ (λ x y. x ∷ y) at (same_ends ∙ ap (λ k. part_ends k parts) at),
      cut
          ∙ ap (λ l. part ++ l) (rest ∙ ap (λ k. concat parts ++ drop k slice) last)
          ∙ sym (
              append_assoc part (concat parts)
                (drop (start + length (part ++ concat parts)) slice)),
    )
