-- ===== src/Merkle/Tree.antt =====
-- The queue of `merkle_root` against the complete binary Merkle tree: `node 0` is the root, the
-- children of `node i` are `node (2 * i + 1)` and `node (2 * i + 2)`, and the leaves stand last.
use mathlib.Core.List.{reverse-append}
use ckb_vote_poc.Base.{
  ℕ, zero, suc, ◌+◌, ◌-◌, ◌*◌, ◌/◌, ◌%◌, ◌≤◌, ◌<◌, ◌≡◌, refl, ap, ap₂, ◌∙◌, some, List, [], ◌∷◌,
  ◌++◌, reverse, length, get_elem?, arith,
}
use ckb_vote_poc.Merkle.{merge_pairs, drain, remainder, merkle_root}

-- A labelling of the nodes of a complete binary tree over `leaves`.
pub record IsMerkleTree {ℓ} {A : Type ℓ} (merge : A → A → A) (leaves : List A) (node : ℕ → A)
    : Type ℓ where
  pub leaf : (k : ℕ) → k < length leaves → get_elem? leaves k ≡ some (node (length leaves - 1 + k))
  pub inner : (i : ℕ) → i + 1 < length leaves → node i ≡ merge (node (2 * i + 1)) (node (2 * i + 2))

-- `2 * pairs + odd`, by recursion on `pairs`.
nodes : ℕ → ℕ → ℕ
nodes zero odd = odd
nodes (suc pairs) odd = suc (suc (nodes pairs odd))

nodes_lem : (pairs odd : ℕ) → nodes pairs odd ≡ 2 * pairs + odd
unfolding nodes
nodes_lem zero odd = omega arith
nodes_lem (suc pairs) odd = omega (arith, nodes_lem pairs odd)

module _ {ℓ} {A : Type ℓ} (node : ℕ → A) where
  -- The nodes `lo .. lo + count - 1`, the last one first.
  span : ℕ → ℕ → List A
  span zero lo = []
  span (suc count) lo = node (lo + count) ∷ span count lo

  span-append_lo : (count lo : ℕ) → span count (suc lo) ++ (node lo ∷ []) ≡ span (suc count) lo
  unfolding span
  span-append_lo zero lo = ap (λ i. node i ∷ []) (omega arith)
  span-append_lo (suc count) lo =
      ap₂ (λ a l. a ∷ l) (ap node (omega arith)) (span-append_lo count lo)

  module _ (merge : A → A → A) where
    -- The queue holds the nodes `lo .. 2 * lo`; one round replaces the last two by `lo - 1`.
    drain-span :
        (lo rounds : ℕ)
        → ((i : ℕ) → i < lo → node i ≡ merge (node (2 * i + 1)) (node (2 * i + 2)))
        → lo ≤ rounds
        → drain merge rounds (span (suc lo) lo) ≡ some (node 0)
    unfolding drain span
    drain-span zero rounds inner h = refl
    drain-span (suc lo) zero inner h = absurd (omega arith)
    drain-span (suc lo) (suc rounds) inner h =
        let e : merge (node (suc lo + lo)) (node (suc lo + suc lo)) ≡ node lo =
          cc (inner lo (omega arith), twice_lo, twice_lo') in
        ap (λ m. drain merge rounds (span lo (suc lo) ++ (m ∷ []))) e
        ∙ ap (drain merge rounds) (span-append_lo lo lo)
        ∙ drain-span lo rounds (λ i p. inner i (omega arith)) (omega arith)
      where
        twice_lo : suc lo + lo ≡ 2 * lo + 1
        twice_lo = omega arith

        twice_lo' : suc lo + suc lo ≡ 2 * lo + 2
        twice_lo' = omega arith

    merge_pairs-span :
        (pairs odd lo top : ℕ)
        → odd ≤ 1
        → lo + nodes pairs odd ≡ 2 * top + 1
        → ((i : ℕ) → i < top → node i ≡ merge (node (2 * i + 1)) (node (2 * i + 2)))
        → merge_pairs merge (span (nodes pairs odd) lo) ≡ span pairs (top - pairs)
    unfolding merge_pairs span nodes
    merge_pairs-span zero zero lo top o e inner = refl
    merge_pairs-span zero (suc zero) lo top o e inner = refl
    merge_pairs-span zero (suc (suc odd)) lo top o e inner = absurd (omega arith)
    merge_pairs-span (suc pairs) odd lo zero o e inner = absurd (omega arith)
    merge_pairs-span (suc pairs) odd lo (suc top) o e inner =
        let rest =
          merge_pairs-span pairs odd lo top o (omega arith) (λ i p. inner i (omega arith)) in
        let low : top - pairs ≡ suc top - suc pairs = omega arith in
        let at : top ≡ suc top - suc pairs + pairs = omega (arith, nodes_lem pairs odd) in
        let first : lo + nodes pairs odd ≡ 2 * top + 1 = omega arith in
        let second : lo + suc (nodes pairs odd) ≡ 2 * top + 2 = omega arith in
        ap₂ (λ a l. a ∷ l) (cc (inner top (omega arith), first, second, at))
          (rest ∙ ap (span pairs) low)

  remainder-span :
      (pairs odd lo : ℕ) → odd ≤ 1 → remainder (span (nodes pairs odd) lo) ≡ span odd lo
  unfolding remainder span nodes
  remainder-span zero zero lo o = refl
  remainder-span zero (suc zero) lo o = refl
  remainder-span zero (suc (suc odd)) lo o = absurd (omega arith)
  remainder-span (suc pairs) odd lo o = remainder-span pairs odd lo o

  reverse-span :
      (leaves : List A) (lo : ℕ)
      → ((k : ℕ) → k < length leaves → get_elem? leaves k ≡ some (node (lo + k)))
      → reverse leaves ≡ span (length leaves) lo
  unfolding span
  reverse-span [] lo at = refl
  reverse-span (x ∷ xs) lo at =
      reverse-append (x ∷ []) xs
      ∙ ap₂ (λ l a. l ++ (a ∷ [])) (reverse-span xs (suc lo) later) first
      ∙ span-append_lo (length xs) lo
    where
      later : (k : ℕ) → k < length xs → get_elem? xs k ≡ some (node (suc lo + k))
      later k h = at (suc k) (omega arith) ∙ ap (λ i. some (node i)) (omega arith)

      first : x ≡ node lo
      first = let e : lo + 0 ≡ lo = omega arith in cc (at 0 (omega arith), e)

  level-span :
      (pairs odd lo : ℕ)
      → odd ≤ 1
      → suc lo ≡ nodes pairs odd
      → span odd lo ++ span pairs (lo - pairs) ≡ span (suc (lo - pairs)) (lo - pairs)
  unfolding span
  level-span pairs zero lo o e =
      let e' : pairs ≡ suc (lo - pairs) = omega (arith, nodes_lem pairs 0) in
      ap (λ c. span c (lo - pairs)) e'
  level-span pairs (suc zero) lo o e =
      let root : lo + 0 ≡ lo - pairs + (lo - pairs) = omega (arith, nodes_lem pairs 1) in
      let rest : pairs ≡ lo - pairs = omega (arith, nodes_lem pairs 1) in
      ap₂ (λ i c. node i ∷ span c (lo - pairs)) root rest
  level-span pairs (suc (suc odd)) lo o e = absurd (omega arith)

  first_level :
      (merge : A → A → A) (pairs odd lo : ℕ)
      → odd ≤ 1
      → suc lo ≡ nodes pairs odd
      → ((i : ℕ) → i < lo → node i ≡ merge (node (2 * i + 1)) (node (2 * i + 2)))
      → drain merge lo (remainder (span (suc lo) lo) ++ merge_pairs merge (span (suc lo) lo))
        ≡ some (node 0)
  first_level merge pairs odd lo o e inner =
      ap (λ n. drain merge lo (remainder (span n lo) ++ merge_pairs merge (span n lo))) e
      ∙ ap₂ (λ a b. drain merge lo (a ++ b)) (remainder-span pairs odd lo o)
          (merge_pairs-span merge pairs odd lo lo o (omega arith) inner)
      ∙ ap (drain merge lo) (level-span pairs odd lo o e)
      ∙ drain-span merge (lo - pairs) lo (λ i p. inner i (omega arith)) (omega arith)

module _ {ℓ} {A : Type ℓ} (merge : A → A → A) (zero_hash : A) where
  -- The root that `merkle_root` computes from at least one leaf is node 0 of the complete binary
  -- tree: of every labelling whose last nodes are the leaves, in order, and whose other nodes are
  -- the merged labels of their two children.
  pub merkle_root-tree :
      (leaves : List A) (node : ℕ → A)
      → 0 < length leaves
      → IsMerkleTree merge leaves node
      → merkle_root merge zero_hash leaves ≡ some (node 0)
  unfolding merkle_root
  merkle_root-tree [] node h t = absurd (omega arith)
  merkle_root-tree (x ∷ xs) node h t =
      let lo = length xs in
      let leaves_span : reverse (x ∷ xs) ≡ span node (suc lo) lo =
        reverse-span node (x ∷ xs) lo (λ k p. t.leaf k p ∙ ap (λ i. some (node i)) (omega arith)) in
      let inner : (i : ℕ) → i < lo → node i ≡ merge (node (2 * i + 1)) (node (2 * i + 2)) =
        λ i p. t.inner i (omega arith) in
      ap (λ l. drain merge lo (remainder l ++ merge_pairs merge l)) leaves_span
      ∙ first_level node merge (suc lo / 2) (suc lo % 2) lo (omega arith)
          (omega (arith, nodes_lem (suc lo / 2) (suc lo % 2))) inner
