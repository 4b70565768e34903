-- ===== src/Integrity/Errors.antt =====
-- Which error `verify_block_integrity` reports.
use ckb_vote_poc.Base.{
  ℕ, zero, suc, ◌+◌, ◌<◌, ◌≡◌, refl, sym, ap, ◌∙◌, inl, inr, true, false, Bool-cases, List, [], ◌∷◌,
  bytes_eq, bytes_eq_iff, bytes_eq_refl, if◌then◌else◌, ok, err, ok_inj, subst, map, >>-eq-err,
  arith, not,
}
use ckb_vote_poc.Chain.{Bytes, Packages, Block}
use ckb_vote_poc.Integrity.{
  Error, parent_hash_mismatch, transactions_root_mismatch, header_hash, tx_hash, merge, merkle_root,
  zeros, calc_transactions_root, check_parents, check_roots, verify_block_integrity,
}
use ckb_vote_poc.Merkle.Total.{merkle_root_total}
use ckb_vote_poc.Integrity.Laws.{LinkedAt, RootAt, parents_sound}

-- `F` fails first at `i`.
abbrev pub FirstAt : (ℕ → Type 0) → ℕ → Type 0
FirstAt F i = ¬ F i × ((j : ℕ) → j < i → F j)

FirstAt-suc : (F : ℕ → Type 0) (i : ℕ) → F 0 → FirstAt (λ j. F (suc j)) i → FirstAt F (suc i)
FirstAt-suc F i now (fails, before) = (fails, earlier)
  where
    earlier : (j : ℕ) → j < suc i → F j
    earlier zero p = now
    earlier (suc j) p = before j (omega arith)

module _ (P : Packages) where
  root_here :
      (x : Block) (w : Bytes) (blocks : List Block) (ws : List Bytes) (root : Bytes)
      → calc_transactions_root P {E = Error} x w ≡ ok root
      → bytes_eq x.header.raw.transactions_root root ≡ true
      → RootAt P (x ∷ blocks) (w ∷ ws) 0
  root_here x w blocks ws root calc same b p =
      let at : x.header.raw.transactions_root ≡ root =
        (bytes_eq_iff x.header.raw.transactions_root root).0 same in
      let there : x ≡ b = cc p in
      (
        w,
        refl,
        subst
            (λ (b : Block).
              calc_transactions_root P {E = Error} b w ≡ ok b.header.raw.transactions_root)
            there (calc ∙ ap ok (sym at)),
      )

  root_elsewhere :
      (x : Block) (w : Bytes) (blocks : List Block) (ws : List Bytes) (root : Bytes)
      → calc_transactions_root P {E = Error} x w ≡ ok root
      → bytes_eq x.header.raw.transactions_root root ≡ false
      → ¬ RootAt P (x ∷ blocks) (w ∷ ws) 0
  root_elsewhere x w blocks ws root calc other r =
      let (v, p, q) = r x refl in
      let same : v ≡ w = cc p in
      let at : calc_transactions_root P {E = Error} x w ≡ ok x.header.raw.transactions_root =
        subst
          (λ (u : Bytes).
            calc_transactions_root P {E = Error} x u ≡ ok x.header.raw.transactions_root)
          same q in
      let equal : x.header.raw.transactions_root ≡ root = ok_inj (sym at ∙ calc) in
      ground (arith, (bytes_eq_iff x.header.raw.transactions_root root).1 equal)

  parents_error :
      (k n : ℕ) (prev : Block) (blocks : List Block)
      → check_parents P k prev blocks ≡ err (parent_hash_mismatch n)
      → (i : ℕ) × (n ≡ k + i) × FirstAt (LinkedAt P (prev ∷ blocks)) i
  unfolding check_parents
  parents_error k n prev [] h = cc
  parents_error k n prev (cur ∷ blocks) h =
      elim (Bool-cases (bytes_eq (header_hash P prev.header) cur.header.raw.parent_hash)) [
        | inl same ↦
            let (i, e, first) = parents_error (k + 1) n cur blocks (ground arith) in
            let here : header_hash P prev.header ≡ cur.header.raw.parent_hash =
              (bytes_eq_iff (header_hash P prev.header) cur.header.raw.parent_hash).0 same in
            (
              suc i,
              omega arith,
              FirstAt-suc (LinkedAt P (prev ∷ cur ∷ blocks)) i (λ a b p q. cc (here, p, q)) first,
            )
        | inr other ↦ (
          0,
          ground arith,
          (
            (λ l. ground (arith, l prev cur refl refl, bytes_eq_refl (header_hash P prev.header))),
            λ j p. absurd (omega arith),
          ),
        )
      ]

  roots-no_parent_error :
      (k n : ℕ) (blocks : List Block) (ws : List Bytes)
      → ¬ (check_roots P k blocks ws ≡ err (parent_hash_mismatch n))
  unfolding check_roots calc_transactions_root
  roots-no_parent_error k n [] ws h = cc
  roots-no_parent_error k n (x ∷ blocks) [] h = cc
  roots-no_parent_error k n (x ∷ blocks) (w ∷ ws) h =
      ground (arith, roots-no_parent_error (k + 1) n blocks ws)

  -- For every block and witness root there is a root of the block's transactions: the two `unwrap`s
  -- do not panic.
  pub calc_transactions_root_total {ℓ} :
      {E : Type ℓ} (block : Block) (w : Bytes)
      → (root : Bytes) × (calc_transactions_root P {E = E} block w ≡ ok root)
  unfolding calc_transactions_root merkle_root
  calc_transactions_root_total block w =
      let (raw, e) = merkle_root_total (merge P) (zeros 32) (map (tx_hash P) block.transactions) in
      let (root, e') = merkle_root_total (merge P) (zeros 32) (raw ∷ w ∷ []) in (root, rw (e, e'))

  roots_error :
      (k n : ℕ) (blocks : List Block) (ws : List Bytes)
      → check_roots P k blocks ws ≡ err (transactions_root_mismatch n)
      → (i : ℕ) × (n ≡ k + i) × FirstAt (RootAt P blocks ws) i
  unfolding check_roots
  roots_error k n [] ws h = cc
  roots_error k n (x ∷ blocks) [] h = cc
  roots_error k n (x ∷ blocks) (w ∷ ws) h =
      let (root, calc) = calc_transactions_root_total {E = Error} x w in
      let h' : (if not (bytes_eq x.header.raw.transactions_root root)
            then err (transactions_root_mismatch k)
            else check_roots P (k + 1) blocks ws)
          ≡ err (transactions_root_mismatch n) =
        rw calc at h in
      elim (Bool-cases (bytes_eq x.header.raw.transactions_root root)) [
        | inl same ↦
            let (i, e, first) = roots_error (k + 1) n blocks ws (ground arith) in
            (
              suc i,
              omega arith,
              FirstAt-suc (RootAt P (x ∷ blocks) (w ∷ ws)) i
                  (root_here x w blocks ws root calc same) first,
            )
        | inr other ↦ (
          0,
          ground arith,
          ((λ r. root_elsewhere x w blocks ws root calc other r), λ j p. absurd (omega arith)),
        )
      ]

  parents-no_root_error :
      (k n : ℕ) (prev : Block) (blocks : List Block)
      → ¬ (check_parents P k prev blocks ≡ err (transactions_root_mismatch n))
  unfolding check_parents
  parents-no_root_error k n prev [] h = cc
  parents-no_root_error k n prev (cur ∷ blocks) h =
      ground (arith, parents-no_root_error (k + 1) n cur blocks)

  -- A parent hash mismatch is reported with the index of the first block that does not name the
  -- header of the block before it.
  pub verify_block_integrity_parent_error :
      (blocks : List Block) (witness_roots : List Bytes) (n : ℕ)
      → verify_block_integrity P blocks witness_roots ≡ err (parent_hash_mismatch n)
      → (i : ℕ) × (n ≡ suc i) × FirstAt (LinkedAt P blocks) i
  unfolding verify_block_integrity
  verify_block_integrity_parent_error [] ws n h = cc
  verify_block_integrity_parent_error (block ∷ blocks) ws n h =
      elim (>>-eq-err (check_parents P 1 block blocks) _ h) [
        | inl e ↦ let (i, p, first) = parents_error 1 n block blocks e in (i, omega arith, first)
        | inr (u, e) ↦ absurd (roots-no_parent_error 0 n (block ∷ blocks) ws e)
      ]

  -- A transactions root mismatch is reported only when every block names the header of the block
  -- before it, and with the index of the first block whose root is wrong.
  pub verify_block_integrity_root_error :
      (blocks : List Block) (witness_roots : List Bytes) (n : ℕ)
      → verify_block_integrity P blocks witness_roots ≡ err (transactions_root_mismatch n)
      → ((i : ℕ) → LinkedAt P blocks i) × FirstAt (RootAt P blocks witness_roots) n
  unfolding verify_block_integrity
  verify_block_integrity_root_error [] ws n h = cc
  verify_block_integrity_root_error (block ∷ blocks) ws n h =
      elim (>>-eq-err (check_parents P 1 block blocks) _ h) [
        | inl e ↦ absurd (parents-no_root_error 1 n block blocks e)
        | inr (u, e) ↦
            let (i, p, first) = roots_error 0 n (block ∷ blocks) ws e in
            let same : i ≡ n = omega arith in
            (
              parents_sound P 1 block blocks u,
              subst (FirstAt (RootAt P (block ∷ blocks) ws)) same first,
            )
      ]
