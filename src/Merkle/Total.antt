-- ===== src/Merkle/Total.antt =====
-- The rounds and the queue of `merkle_root`.
use ckb_vote_poc.Base.{
  ℕ, zero, suc, ◌+◌, ◌*◌, ◌≤◌, ◌<◌, ◌≡◌, refl, some, List, [], ◌∷◌, ◌++◌, reverse, length,
  length-append, arith,
}
use ckb_vote_poc.Merkle.{merge_pairs, drain, remainder, merkle_root}
use ckb_vote_poc.Merkle.Binding.{length-reverse_native}

module _ {ℓ} {A : Type ℓ} (merge : A → A → A) where
  drain_total :
      (rounds : ℕ) (q : List A)
      → 0 < length q
      → length q ≤ suc rounds
      → (root : A) × (drain merge rounds q ≡ some root)
  unfolding drain
  drain_total rounds [] h k = absurd (omega arith)
  drain_total rounds (x ∷ []) h k = (x, refl)
  drain_total zero (x ∷ y ∷ q) h k = absurd (omega arith)
  drain_total (suc rounds) (x ∷ y ∷ q) h k =
      drain_total rounds (q ++ (merge y x ∷ [])) (omega (arith, length-append q (merge y x ∷ [])))
        (omega (arith, length-append q (merge y x ∷ [])))

  first_level_length :
      (l : List A)
      → (length l ≤ 2 * (length (remainder l) + length (merge_pairs merge l)))
        × (length (remainder l) + length (merge_pairs merge l) ≤ length l)
  unfolding remainder merge_pairs
  first_level_length [] = omega arith
  first_level_length (x ∷ []) = omega arith
  first_level_length (x ∷ y ∷ l) = omega (arith, first_level_length l)

  -- For every list of leaves there is a root.
  pub merkle_root_total :
      (zero_hash : A) (leaves : List A)
      → (root : A) × (merkle_root merge zero_hash leaves ≡ some root)
  unfolding merkle_root
  merkle_root_total z [] = (z, refl)
  merkle_root_total z (x ∷ l) =
      let r = reverse (x ∷ l) in
      let n : length r ≡ suc (length l) = length-reverse_native (x ∷ l) in
      let (lo, hi) = first_level_length r in
      drain_total (length l) (remainder r ++ merge_pairs merge r)
        (omega (arith, length-append (remainder r) (merge_pairs merge r)))
        (omega (arith, length-append (remainder r) (merge_pairs merge r)))
