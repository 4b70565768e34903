-- ===== src/Count/Dict.antt =====
-- The maps of `count_vote` (`BTreeMap`): association lists from byte strings. `insert` replaces the
-- value of a key, and `remove` drops it. The order of the entries is not the tree's.
use ckb_vote_poc.Base.{
  ℕ, ◌≡◌, refl, subst, false, inl, inr, Bool-cases, Option, none, some, List, [], ◌∷◌, arith,
  if◌then◌else◌, bytes_eq, bytes_eq_iff,
}

abbrev pub Map {ℓ} : Type ℓ → Type ℓ
Map V = List (List ℕ × V)

bytes_eq_flip : (i k : List ℕ) → bytes_eq i k ≡ false → bytes_eq k i ≡ false
bytes_eq_flip i k h = ground (arith, bytes_eq_iff i k, bytes_eq_iff k i)

module _ {ℓ} {V : Type ℓ} where
  unfoldable pub lookup : List ℕ → Map V → Option V
  lookup k [] = none
  lookup k ((j, v) ∷ m) = if bytes_eq j k then some v else lookup k m

  unfoldable pub insert : List ℕ → V → Map V → Map V
  insert k v [] = (k, v) ∷ []
  insert k v ((j, w) ∷ m) = if bytes_eq j k then (k, v) ∷ m else (j, w) ∷ insert k v m

  unfoldable pub remove : List ℕ → Map V → Map V
  remove k [] = []
  remove k ((j, v) ∷ m) = let rest = remove k m in if bytes_eq j k then rest else (j, v) ∷ rest

  pub lookup-insert :
      (k j : List ℕ) (v : V) (m : Map V)
      → lookup j (insert k v m) ≡ (if bytes_eq k j then some v else lookup j m)
  unfolding lookup insert
  lookup-insert k j v [] = refl
  lookup-insert k j v ((i, w) ∷ m) =
      ground (arith, bytes_eq_iff k j, bytes_eq_iff i k, bytes_eq_iff i j, lookup-insert k j v m)

  pub lookup-remove :
      (k j : List ℕ) (m : Map V)
      → lookup j (remove k m) ≡ (if bytes_eq k j then none else lookup j m)
  unfolding lookup remove
  lookup-remove k j [] = ground arith
  lookup-remove k j ((i, w) ∷ m) =
      ground (arith, bytes_eq_iff k j, bytes_eq_iff i k, bytes_eq_iff i j, lookup-remove k j m)

  -- No key stands twice.
  abbrev pub IsFresh : List ℕ → Map V → Type 0
  IsFresh k [] = Unit
  IsFresh k ((j, v) ∷ m) = (bytes_eq j k ≡ false) × IsFresh k m

  abbrev pub HasUniqueKeys : Map V → Type 0
  HasUniqueKeys [] = Unit
  HasUniqueKeys ((j, v) ∷ m) = IsFresh j m × HasUniqueKeys m

  IsFresh-insert :
      (k j : List ℕ) (v : V) (m : Map V)
      → bytes_eq k j ≡ false
      → IsFresh j m
      → IsFresh j (insert k v m)
  unfolding insert
  IsFresh-insert k j v [] h f = (h, tt)
  IsFresh-insert k j v ((i, w) ∷ m) h f = elim (Bool-cases (bytes_eq i k)) [
    | inl e ↦ rw e (h, f.1)
    | inr e ↦ rw e (f.0, IsFresh-insert k j v m h f.1)
  ]

  IsFresh-remove : (k j : List ℕ) (m : Map V) → IsFresh j m → IsFresh j (remove k m)
  unfolding remove
  IsFresh-remove k j [] f = tt
  IsFresh-remove k j ((i, w) ∷ m) f = elim (Bool-cases (bytes_eq i k)) [
    | inl e ↦ rw e (IsFresh-remove k j m f.1)
    | inr e ↦ rw e (f.0, IsFresh-remove k j m f.1)
  ]

  pub insert-HasUniqueKeys :
      (k : List ℕ) (v : V) (m : Map V) → HasUniqueKeys m → HasUniqueKeys (insert k v m)
  unfolding insert
  insert-HasUniqueKeys k v [] u = (tt, tt)
  insert-HasUniqueKeys k v ((i, w) ∷ m) u = elim (Bool-cases (bytes_eq i k)) [
    | inl e ↦ rw e (subst (λ x. IsFresh x m) ((bytes_eq_iff i k).0 e) u.0, u.1)
    | inr e ↦
        rw e (IsFresh-insert k i v m (bytes_eq_flip i k e) u.0, insert-HasUniqueKeys k v m u.1)
  ]

  pub remove-HasUniqueKeys : (k : List ℕ) (m : Map V) → HasUniqueKeys m → HasUniqueKeys (remove k m)
  unfolding remove
  remove-HasUniqueKeys k [] u = tt
  remove-HasUniqueKeys k ((i, w) ∷ m) u = elim (Bool-cases (bytes_eq i k)) [
    | inl e ↦ rw e (remove-HasUniqueKeys k m u.1)
    | inr e ↦ rw e (IsFresh-remove k i m u.0, remove-HasUniqueKeys k m u.1)
  ]
