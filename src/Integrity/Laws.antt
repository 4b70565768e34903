-- ===== src/Integrity/Laws.antt =====
-- What `verify_block_integrity` accepts.
use mathlib.Core.Logic.{◌≢◌}
use ckb_vote_poc.Base.{
  ℕ, zero, suc, ◌+◌, ◌≡◌, refl, subst, ◌↔◌, some, List, [], ◌∷◌, bytes_eq_iff, bytes_eq_refl,
  get_elem?, ok, >>=-eq-ok, arith,
}
use ckb_vote_poc.Chain.{Bytes, Packages, Block}
use ckb_vote_poc.Integrity.{
  Error, header_hash, calc_transactions_root, check_parents, check_roots, verify_block_integrity,
}

module _ (P : Packages) where
  -- Block `i + 1` names the header of block `i` as its parent.
  abbrev pub LinkedAt : List Block → ℕ → Type 0
  LinkedAt blocks i =
      (a b : Block)
      → get_elem? blocks i ≡ some a
      → get_elem? blocks (suc i) ≡ some b
      → header_hash P a.header ≡ b.header.raw.parent_hash

  -- Block `i` has a witness root, and its header the root of its transactions and that.
  abbrev pub RootAt : List Block → List Bytes → ℕ → Type 0
  RootAt blocks witness_roots i =
      (b : Block)
      → get_elem? blocks i ≡ some b
      → (w : Bytes) × (get_elem? witness_roots i ≡ some w)
        × (calc_transactions_root P {E = Error} b w ≡ ok b.header.raw.transactions_root)

  pub record IsIntact (blocks : List Block) (witness_roots : List Bytes) : Type 0 where
    pub nonempty : blocks ≢ []
    pub linked : (i : ℕ) → LinkedAt blocks i
    pub roots : (i : ℕ) → RootAt blocks witness_roots i

  pub parents_sound :
      (k : ℕ) (prev : Block) (blocks : List Block)
      → check_parents P k prev blocks ≡ ok tt
      → (i : ℕ) → LinkedAt (prev ∷ blocks) i
  unfolding check_parents
  parents_sound k prev [] h i a b p q = cc
  parents_sound k prev (cur ∷ blocks) h zero a b p q =
      ground (arith, bytes_eq_iff (header_hash P prev.header) cur.header.raw.parent_hash)
  parents_sound k prev (cur ∷ blocks) h (suc i) a b p q =
      parents_sound (k + 1) cur blocks (ground arith) i a b p q

  parents_complete :
      (k : ℕ) (prev : Block) (blocks : List Block)
      → ((i : ℕ) → LinkedAt (prev ∷ blocks) i)
      → check_parents P k prev blocks ≡ ok tt
  unfolding check_parents
  parents_complete k prev [] h = refl
  parents_complete k prev (cur ∷ blocks) h = ground (
    arith,
    bytes_eq_iff (header_hash P prev.header) cur.header.raw.parent_hash,
    h 0 prev cur refl refl,
    parents_complete (k + 1) cur blocks (λ i. h (suc i)),
  )

  roots_sound :
      (k : ℕ) (blocks : List Block) (ws : List Bytes)
      → check_roots P k blocks ws ≡ ok tt
      → (i : ℕ) → RootAt blocks ws i
  unfolding check_roots
  roots_sound k [] ws h i b p = cc
  roots_sound k (x ∷ blocks) [] h i b p = cc
  roots_sound k (x ∷ blocks) (w ∷ ws) h zero b p =
      let (root, r, e) = >>=-eq-ok (calc_transactions_root P x w) _ h in
      let same : root ≡ x.header.raw.transactions_root =
        ground (arith, bytes_eq_iff x.header.raw.transactions_root root) in
      let there : x ≡ b = cc p in
      (
        w,
        refl,
        subst
            (λ (b : Block).
              calc_transactions_root P {E = Error} b w ≡ ok b.header.raw.transactions_root)
            there (subst (λ (t : Bytes). calc_transactions_root P {E = Error} x w ≡ ok t) same r),
      )
  roots_sound k (x ∷ blocks) (w ∷ ws) h (suc i) b p =
      let (root, r, e) = >>=-eq-ok (calc_transactions_root P x w) _ h in
      roots_sound (k + 1) blocks ws (ground arith) i b p

  roots_complete :
      (k : ℕ) (blocks : List Block) (ws : List Bytes)
      → ((i : ℕ) → RootAt blocks ws i)
      → check_roots P k blocks ws ≡ ok tt
  unfolding check_roots
  roots_complete k [] ws h = refl
  roots_complete k (x ∷ blocks) [] h = let (w, p, q) = h 0 x refl in cc p
  roots_complete k (x ∷ blocks) (w ∷ ws) h =
      let (w', p, q) = h 0 x refl in
      let same : w' ≡ w = cc p in
      let root : calc_transactions_root P {E = Error} x w ≡ ok x.header.raw.transactions_root =
        subst
          (λ (v : Bytes).
            calc_transactions_root P {E = Error} x v ≡ ok x.header.raw.transactions_root)
          same q in
      rw (root, bytes_eq_refl x.header.raw.transactions_root)
        (roots_complete (k + 1) blocks ws (λ i. h (suc i)))

  -- Verification succeeds exactly on a nonempty sequence of blocks in which each block names the
  -- header of the one before as its parent, and each block has a witness root with which the root
  -- of its transactions is the one in its header.
  pub verify_block_integrity_iff :
      (blocks : List Block) (witness_roots : List Bytes)
      → (verify_block_integrity P blocks witness_roots ≡ ok tt) ↔ IsIntact blocks witness_roots
  unfolding verify_block_integrity
  verify_block_integrity_iff [] ws = (λ h. cc, λ t. absurd (t.nonempty refl))
  verify_block_integrity_iff (block ∷ blocks) ws = (
    λ h.
        let (u, p, q) = >>=-eq-ok (check_parents P 1 block blocks) _ h in
        record {
          nonempty = λ e. cc e;
          linked = parents_sound 1 block blocks p;
          roots = roots_sound 0 (block ∷ blocks) ws q;
        },
    λ t.
        rw (parents_complete 1 block blocks t.linked)
          (roots_complete 0 (block ∷ blocks) ws t.roots),
  )
