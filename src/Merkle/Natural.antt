-- ===== src/Merkle/Natural.antt =====
-- The Merkle root of crates/verification/src/lib.rs for two types of nodes, with a function between
-- them that keeps `merge`.
use mathlib.Core.List.{map-append, reverse-append}
use ckb_vote_poc.Base.{
  ℕ, zero, suc, ◌≡◌, refl, sym, ap, ap₂, ◌∙◌, Option, none, some, List, [], ◌∷◌, ◌++◌, reverse, map,
  length, length-map,
}
use ckb_vote_poc.Merkle.{merge_pairs, drain, remainder, merkle_root}

module _ {ℓ κ} {A : Type ℓ} {B : Type κ} (f : A → B) where
  map-reverse : (l : List A) → map f (reverse l) ≡ reverse (map f l)
  map-reverse [] = refl
  map-reverse (x ∷ l) =
      ap (map f) (reverse-append (x ∷ []) l)
      ∙ map-append f (reverse l) (x ∷ [])
      ∙ ap (λ r. r ++ (f x ∷ [])) (map-reverse l)
      ∙ sym (reverse-append (f x ∷ []) (map f l))

  map-remainder : (l : List A) → map f (remainder l) ≡ remainder (map f l)
  unfolding remainder
  map-remainder [] = refl
  map-remainder (x ∷ []) = refl
  map-remainder (x ∷ y ∷ l) = map-remainder l

  abbrev image : Option A → Option B
  image none = none
  image (some a) = some (f a)

  module _ (merge : A → A → A) (merge' : B → B → B)
      (keeps : (a b : A) → f (merge a b) ≡ merge' (f a) (f b)) where
    map-merge_pairs : (l : List A) → map f (merge_pairs merge l) ≡ merge_pairs merge' (map f l)
    unfolding merge_pairs
    map-merge_pairs [] = refl
    map-merge_pairs (x ∷ []) = refl
    map-merge_pairs (x ∷ y ∷ l) = ap₂ (λ v r. v ∷ r) (keeps y x) (map-merge_pairs l)

    map-drain :
        (rounds : ℕ) (q : List A) → drain merge' rounds (map f q) ≡ image (drain merge rounds q)
    unfolding drain
    map-drain rounds [] = refl
    map-drain rounds (x ∷ []) = refl
    map-drain zero (x ∷ y ∷ q) = refl
    map-drain (suc rounds) (x ∷ y ∷ q) =
        ap (drain merge' rounds)
          (ap (λ v. map f q ++ (v ∷ [])) (sym (keeps y x)) ∙ sym (map-append f q (merge y x ∷ [])))
        ∙ map-drain rounds (q ++ (merge y x ∷ []))

    -- The root of the images of the leaves is the image of the root.
    pub map-merkle_root :
        (zero_hash root : A) (leaves : List A)
        → merkle_root merge zero_hash leaves ≡ some root
        → merkle_root merge' (f zero_hash) (map f leaves) ≡ some (f root)
    unfolding merkle_root
    map-merkle_root z root [] e = ap image e
    map-merkle_root z root (x ∷ l) e =
        let r = reverse (x ∷ l) in
        let first : map f (remainder r ++ merge_pairs merge r)
            ≡ remainder (reverse (map f (x ∷ l))) ++ merge_pairs merge' (reverse (map f (x ∷ l))) =
          map-append f (remainder r) (merge_pairs merge r)
          ∙ ap₂ (λ a b. a ++ b) (map-remainder r) (map-merge_pairs r)
          ∙ ap (λ s. remainder s ++ merge_pairs merge' s) (map-reverse (x ∷ l)) in
        ap₂ (drain merge') (length-map l f) (sym first)
        ∙ map-drain (length l) (remainder r ++ merge_pairs merge r)
        ∙ ap image e
