-- ===== src/Merkle.antt =====
-- `merge` and `merkle_root` of crates/verification/src/lib.rs: the root of a complete binary Merkle
-- tree, computed with a double-ended queue. The hash of two nodes is a parameter here.
pub mod Tree
pub mod Total
pub mod Binding
pub mod Natural
use ckb_vote_poc.Base.{ℕ, zero, suc, Option, none, some, List, [], ◌∷◌, ◌++◌, reverse, length}

-- One call for each pair that `rchunks_exact(2)` yields; the list is the leaves from the last on.
module _ {ℓ} {A : Type ℓ} (merge : A → A → A) where
  unfoldable pub merge_pairs : List A → List A
  merge_pairs (leaf2 ∷ leaf1 ∷ rest) = merge leaf1 leaf2 ∷ merge_pairs rest
  merge_pairs _ = []

  -- `while queue.len() > 1`; `none` is a panic of `unwrap`, or that the rounds ran out.
  unfoldable pub drain : ℕ → List A → Option A
  drain rounds [] = none
  drain rounds (root ∷ []) = some root
  drain zero (right ∷ left ∷ queue) = none
  drain (suc rounds) (right ∷ left ∷ queue) = drain rounds (queue ++ (merge left right ∷ []))

-- `iter.remainder()`, with the leaves from the last on.
unfoldable pub remainder {ℓ} : {A : Type ℓ} → List A → List A
remainder [] = []
remainder (leaf ∷ []) = leaf ∷ []
remainder (leaf2 ∷ leaf1 ∷ rest) = remainder rest

unfoldable pub merkle_root {ℓ} : {A : Type ℓ} → (A → A → A) → A → List A → Option A
unfolding merge_pairs drain remainder
merkle_root merge zero_hash [] = some zero_hash
merkle_root merge zero_hash (leaf ∷ leaves) =
    let last_first = reverse (leaf ∷ leaves) in
    drain merge (length leaves) (remainder last_first ++ merge_pairs merge last_first)
