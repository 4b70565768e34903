-- ===== src/VoteScript/Deposits.antt =====
-- The DAO deposits behind a vote.
use ckb_vote_poc.Base.{
  ℕ, suc, ◌+◌, ◌≤◌, ◌≡◌, ap, ◌∙◌, min, not, some, List, [], ◌∷◌, length, get_elem?, ◌==◌, bytes_eq,
  bytes_eq_iff, bytes_eq_refl, ok, >>=-eq-ok, ok_or-eq-ok, unwrap-eq-ok, map_err-eq-ok,
  fail_if-eq-ok, ok_inj, ok_or, unwrap, map_err, arith,
}
use ckb_vote_poc.Chain.{Bytes, Packages, Script}
use ckb_vote_poc.Count.{u64_max}
use ckb_vote_poc.Count.Read.{from_le_bytes}
use ckb_vote_poc.Syscalls.{cell_dep, Cell, Context, load_cell}
use ckb_vote_poc.VoteScript.{
  dao_dep_invalid, vote_data_invalid, dao_code_hash, dao_hash_type, has_lock, check_deposit,
  sum_deposits,
}

module _ (P : Packages) (c : Context) where
  -- The cell dep `idx` is a Nervos DAO deposit of `capacity` shannon under the lock `lock`.
  pub record IsDeposit (lock : Script) (idx : ℕ) (capacity : ℕ) : Type 0 where
    pub cell : Cell
    pub dao : Script
    pub listed : get_elem? (c.cells cell_dep) idx ≡ some cell
    pub owned : P.script_slice cell.lock ≡ P.script_slice lock
    pub typed : cell.type_ ≡ some dao
    pub dao_code : dao.code_hash ≡ dao_code_hash
    pub dao_type : get_elem? dao.hash_type 0 ≡ some dao_hash_type
    pub no_args : length dao.args ≡ 0
    pub amount : cell.capacity ≡ capacity

  -- The items are indices of deposits, and `total` is the sum of their capacities.
  pub data Backed (lock : Script) : List Bytes → ℕ → Type 0 where
    none_left : Backed lock [] 0
    deposit :
        {item : Bytes} {items : List Bytes} {idx capacity total : ℕ}
        → from_le_bytes 2 item ≡ ok idx
        → IsDeposit lock idx capacity
        → Backed lock items total
        → Backed lock (item ∷ items) (capacity + total)

  check_deposit_sound :
      (lock : Script) (idx capacity : ℕ)
      → check_deposit P c lock idx ≡ ok capacity
      → IsDeposit lock idx capacity
  unfolding check_deposit has_lock
  check_deposit_sound lock idx capacity h =
      let (cell, e₁, h₁) = >>=-eq-ok (ok_or (load_cell c idx cell_dep) dao_dep_invalid) _ h in
      let (dao, e₂, h₂) = >>=-eq-ok (ok_or cell.type_ dao_dep_invalid) _ h₁ in
      let (e₃, h₃) = fail_if-eq-ok (not (has_lock P lock cell)) dao_dep_invalid _ h₂ in
      let (e₄, h₄) =
        fail_if-eq-ok (not (bytes_eq dao.code_hash dao_code_hash)) dao_dep_invalid _ h₃ in
      let (hash_type, e₅, h₅) = >>=-eq-ok (unwrap (get_elem? dao.hash_type 0)) _ h₄ in
      let (e₆, h₆) = fail_if-eq-ok (not (hash_type == dao_hash_type)) dao_dep_invalid _ h₅ in
      let (e₇, h₇) = fail_if-eq-ok (not (length dao.args == 0)) dao_dep_invalid _ h₆ in
      let one : hash_type ≡ dao_hash_type = ground arith in
      record {
        cell = cell;
        dao = dao;
        listed = ok_or-eq-ok _ _ e₁;
        owned = ground (arith, bytes_eq_iff (P.script_slice cell.lock) (P.script_slice lock));
        typed = ok_or-eq-ok _ _ e₂;
        dao_code = ground (arith, bytes_eq_iff dao.code_hash dao_code_hash);
        dao_type = unwrap-eq-ok _ e₅ ∙ ap some one;
        no_args = ground arith;
        amount = ok_inj h₇;
      }

  check_deposit_complete :
      (lock : Script) (idx capacity : ℕ)
      → IsDeposit lock idx capacity
      → check_deposit P c lock idx ≡ ok capacity
  unfolding check_deposit has_lock
  check_deposit_complete lock idx capacity d =
      rw (d.listed, d.typed, d.owned, bytes_eq_refl, d.dao_code, d.dao_type, d.no_args)
        (rw (bytes_eq_refl dao_code_hash) (ap ok d.amount))

  -- The loop over the listed cell deps succeeds only if each of them is a DAO deposit under the lock;
  -- it then counts them, and adds the sum of their capacities to a total that stops at the largest
  -- u64.
  pub sum_deposits_sound :
      (lock : Script) (items : List Bytes) (n t n' t' : ℕ)
      → t ≤ u64_max
      → sum_deposits P c lock items n t ≡ ok (n', t')
      → (total : ℕ) × Backed lock items total
        × (n' ≡ n + length items)
        × (t' ≡ min (t + total) u64_max)
  unfolding sum_deposits
  sum_deposits_sound lock [] n t n' t' b h =
      let p : (n, t) ≡ (n', t') = ok_inj h in
      let same_count : n ≡ n' = cc p in
      let same_total : t ≡ t' = cc p in (0, none_left, omega arith, omega arith)
  sum_deposits_sound lock (item ∷ items) n t n' t' b h =
      let (idx, e₁, h₁) = >>=-eq-ok (map_err (from_le_bytes 2 item) vote_data_invalid) _ h in
      let (cap, e₂, h₂) = >>=-eq-ok (check_deposit P c lock idx) _ h₁ in
      let (total, backed, count, sum) =
        sum_deposits_sound lock items (n + 1) (min (t + cap) u64_max) n' t' (omega arith) h₂ in
      (
        cap + total,
        deposit (map_err-eq-ok _ _ e₁) (check_deposit_sound lock idx cap e₂) backed,
        omega arith,
        omega arith,
      )

  pub sum_deposits_complete :
      (lock : Script) (items : List Bytes) (total n t : ℕ)
      → t ≤ u64_max
      → Backed lock items total
      → sum_deposits P c lock items n t ≡ ok (n + length items, min (t + total) u64_max)
  unfolding sum_deposits
  sum_deposits_complete lock items total n t b none_left =
      let p : n ≡ n + 0 = omega arith in
      let q : t ≡ min (t + 0) u64_max = omega arith in λ i. ok (p i, q i)
  sum_deposits_complete lock items total n t b
        (deposit {items = rest} {capacity = here} {total = more} e d backed) =
      let p : n + 1 + length rest ≡ n + suc (length rest) = omega arith in
      let q : min (min (t + here) u64_max + more) u64_max ≡ min (t + (here + more)) u64_max =
        omega arith in
      rw (e, check_deposit_complete lock _ here d)
        (sum_deposits_complete lock rest more (n + 1) (min (t + here) u64_max) (omega arith) backed
          ∙ (λ i. ok (p i, q i)))
