-- ===== src/Merkle/Binding.antt =====
-- A Merkle root and its leaves: lists of leaves of the same length and root, and pairs of nodes that
-- `merge` maps to one value.
use mathlib.Core.List.{reverse-append, reverse-reverse}
use ckb_vote_poc.Base.{
  ℕ, zero, suc, ◌≡◌, refl, sym, ap, ap₂, ◌∙◌, ◌⊎◌, inl, inr, some, List, [], ◌∷◌, ◌++◌, reverse,
  length, length-append, arith,
}
use ckb_vote_poc.Merkle.{merge_pairs, drain, remainder, merkle_root}

abbrev pub Collision {ℓ} : {A : Type ℓ} → (A → A → A) → Type ℓ
Collision {A} merge = (a b c d : A) × (merge a b ≡ merge c d) × ¬ ((a ≡ c) × (b ≡ d))

module _ {ℓ} {A : Type ℓ} where
  cons_inj : {x y : A} {xs ys : List A} → x ∷ xs ≡ y ∷ ys → (x ≡ y) × (xs ≡ ys)
  cons_inj e = (cc, cc)

  pub append_inj :
      (a a' b b' : List A) → length a ≡ length a' → a ++ b ≡ a' ++ b' → (a ≡ a') × (b ≡ b')
  append_inj [] [] b b' h e = (refl, e)
  append_inj [] (x ∷ a') b b' h e = absurd (omega arith)
  append_inj (x ∷ a) [] b b' h e = absurd (omega arith)
  append_inj (x ∷ a) (y ∷ a') b b' h e =
      let (p, q) = cons_inj e in
      let (r, s) = append_inj a a' b b' (omega arith) q in (ap₂ (λ v l. v ∷ l) p r, s)

  length-remainder :
      (l l' : List A) → length l ≡ length l' → length (remainder l) ≡ length (remainder l')
  unfolding remainder
  length-remainder [] [] h = refl
  length-remainder [] (x ∷ l') h = absurd (omega arith)
  length-remainder (x ∷ l) [] h = absurd (omega arith)
  length-remainder (x ∷ []) (x' ∷ []) h = refl
  length-remainder (x ∷ []) (x' ∷ y' ∷ l') h = absurd (omega arith)
  length-remainder (x ∷ y ∷ l) (x' ∷ []) h = absurd (omega arith)
  length-remainder (x ∷ y ∷ l) (x' ∷ y' ∷ l') h = length-remainder l l' (omega arith)

  pub length-reverse_native : (l : List A) → length (reverse l) ≡ length l
  length-reverse_native [] = refl
  length-reverse_native (x ∷ l) =
      ap length (reverse-append (x ∷ []) l)
      ∙ omega (arith, length-append (reverse l) (x ∷ []), length-reverse_native l)

  length-merge_pairs :
      (merge : A → A → A) (l l' : List A)
      → length l ≡ length l'
      → length (merge_pairs merge l) ≡ length (merge_pairs merge l')
  unfolding merge_pairs
  length-merge_pairs merge [] [] h = refl
  length-merge_pairs merge [] (x ∷ l') h = absurd (omega arith)
  length-merge_pairs merge (x ∷ l) [] h = absurd (omega arith)
  length-merge_pairs merge (x ∷ []) (x' ∷ []) h = refl
  length-merge_pairs merge (x ∷ []) (x' ∷ y' ∷ l') h = absurd (omega arith)
  length-merge_pairs merge (x ∷ y ∷ l) (x' ∷ []) h = absurd (omega arith)
  length-merge_pairs merge (x ∷ y ∷ l) (x' ∷ y' ∷ l') h =
      ap suc (length-merge_pairs merge l l' (omega arith))

module _ {ℓ} {A : Type ℓ} (same? : Discrete A) (merge : A → A → A) where
  merge_inj : (a b c d : A) → merge a b ≡ merge c d → ((a ≡ c) × (b ≡ d)) ⊎ Collision merge
  merge_inj a b c d e = elim (same? a c) [
    | yes p ↦ elim (same? b d) [ yes q ↦ inl (p, q) | no q ↦ inr (a, b, c, d, e, λ r. q r.1) ]
    | no p ↦ inr (a, b, c, d, e, λ r. p r.0)
  ]

  drain_binding :
      (rounds : ℕ) (q q' : List A) (root : A)
      → length q ≡ length q'
      → drain merge rounds q ≡ some root
      → drain merge rounds q' ≡ some root
      → (q ≡ q') ⊎ Collision merge
  unfolding drain
  drain_binding rounds [] q' root h e e' = cc
  drain_binding rounds (x ∷ []) [] root h e e' = cc
  drain_binding rounds (x ∷ []) (x' ∷ []) root h e e' = inl (cc)
  drain_binding rounds (x ∷ []) (x' ∷ y' ∷ q') root h e e' = absurd (omega arith)
  drain_binding rounds (x ∷ y ∷ q) [] root h e e' = cc
  drain_binding rounds (x ∷ y ∷ q) (x' ∷ []) root h e e' = absurd (omega arith)
  drain_binding zero (x ∷ y ∷ q) (x' ∷ y' ∷ q') root h e e' = cc
  drain_binding (suc rounds) (x ∷ y ∷ q) (x' ∷ y' ∷ q') root h e e' =
      elim (drain_binding rounds (q ++ (merge y x ∷ [])) (q' ++ (merge y' x' ∷ [])) root
        (omega (arith, length-append q (merge y x ∷ []), length-append q' (merge y' x' ∷ []))) e
        e') [
          | inl s ↦
              let (qs, ms) = append_inj q q' _ _ (omega arith) s in
              elim (merge_inj y x y' x' (cons_inj ms).0) [
                | inl (ye, xe) ↦ inl (cc (ye, xe, qs))
                | inr c ↦ inr c
              ]
          | inr c ↦ inr c
        ]

  merge_pairs_binding :
      (l l' : List A)
      → length l ≡ length l'
      → remainder l ≡ remainder l'
      → merge_pairs merge l ≡ merge_pairs merge l'
      → (l ≡ l') ⊎ Collision merge
  unfolding merge_pairs remainder
  merge_pairs_binding [] [] h r e = inl refl
  merge_pairs_binding [] (x' ∷ l') h r e = absurd (omega arith)
  merge_pairs_binding (x ∷ l) [] h r e = absurd (omega arith)
  merge_pairs_binding (x ∷ []) (x' ∷ []) h r e = inl r
  merge_pairs_binding (x ∷ []) (x' ∷ y' ∷ l') h r e = absurd (omega arith)
  merge_pairs_binding (x ∷ y ∷ l) (x' ∷ []) h r e = absurd (omega arith)
  merge_pairs_binding (x ∷ y ∷ l) (x' ∷ y' ∷ l') h r e =
      let (me, re) = cons_inj e in
      elim (merge_inj y x y' x' me) [
        | inl (ye, xe) ↦ elim (merge_pairs_binding l l' (omega arith) r re) [
          | inl le ↦ inl (cc (ye, xe, le))
          | inr c ↦ inr c
        ]
        | inr c ↦ inr c
      ]

  first_level_binding :
      (rounds : ℕ) (l l' : List A) (root : A)
      → length l ≡ length l'
      → drain merge rounds (remainder l ++ merge_pairs merge l) ≡ some root
      → drain merge rounds (remainder l' ++ merge_pairs merge l') ≡ some root
      → (l ≡ l') ⊎ Collision merge
  first_level_binding rounds l l' root h e e' =
      elim (drain_binding rounds _ _ root
        (omega (
          arith,
          length-append (remainder l) (merge_pairs merge l),
          length-append (remainder l') (merge_pairs merge l'),
          length-remainder l l' h,
          length-merge_pairs merge l l' h,
        ))
        e e') [
          | inl s ↦
              let (r, p) =
                append_inj (remainder l) (remainder l') _ _ (length-remainder l l' h) s in
              merge_pairs_binding l l' h r p
          | inr c ↦ inr c
        ]

  -- Where equality of nodes is decidable, two lists of leaves of the same length with the same root
  -- are equal, unless two different pairs of nodes have the same hash.
  pub merkle_root_binding :
      (zero_hash : A) (leaves leaves' : List A) (root : A)
      → length leaves ≡ length leaves'
      → merkle_root merge zero_hash leaves ≡ some root
      → merkle_root merge zero_hash leaves' ≡ some root
      → (leaves ≡ leaves') ⊎ Collision merge
  unfolding merkle_root
  merkle_root_binding z [] [] root h e e' = inl refl
  merkle_root_binding z [] (x' ∷ l') root h e e' = absurd (omega arith)
  merkle_root_binding z (x ∷ l) [] root h e e' = absurd (omega arith)
  merkle_root_binding z (x ∷ l) (x' ∷ l') root h e e' =
      let n : length l' ≡ length l = omega arith in
      elim (first_level_binding (length l) (reverse (x ∷ l)) (reverse (x' ∷ l')) root
        (length-reverse_native (x ∷ l) ∙ h ∙ sym (length-reverse_native (x' ∷ l'))) e
        (rw n at e')) [
          | inl s ↦ inl (sym (reverse-reverse (x ∷ l)) ∙ ap reverse s ∙ reverse-reverse (x' ∷ l'))
          | inr c ↦ inr c
        ]
