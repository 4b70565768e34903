-- ===== src/VoteScript/Amounts.antt =====
-- What the checks of a vote's amount accept.
use ckb_vote_poc.Base.{
  ℕ, ◌≡◌, ◌<◌, min, not, ◌||◌, List, length, ◌==◌, ok, >>=-eq-ok, map_err-eq-ok, fail_if-eq-ok,
  map_err, arith,
}
use ckb_vote_poc.Chain.{Bytes, Packages, Script}
use ckb_vote_poc.Molecule.Vote
use ckb_vote_poc.Molecule.Uint16Vec
use ckb_vote_poc.Count.{u64_max}
use ckb_vote_poc.Count.Read.{little_endian}
use ckb_vote_poc.Syscalls.{Context}
use ckb_vote_poc.VoteScript.{
  vote_data_invalid, dao_dep_invalid, amount_mismatch, le_bytes_or, sum_deposits, check_amount,
}
use ckb_vote_poc.VoteScript.Deposits.{Backed, sum_deposits_sound, sum_deposits_complete}

module _ (P : Packages) (c : Context) where
  -- What `check_amount` has seen when it succeeds.
  abbrev pub Amounts : Script → Bytes → Type 0
  Amounts lock vote =
      (amount : Bytes) × (indices : Bytes) × (items : List Bytes) × (total : ℕ) × (Vote.amount P
          vote
        ≡ ok amount)
      × (length amount ≡ 8)
      × (Vote.dao_index P vote ≡ ok indices)
      × (Uint16Vec.iter P indices ≡ ok items)
      × Backed P c lock items total
      × (0 < length items)
      × (0 < total)
      × (little_endian amount ≡ min total u64_max)

  pub check_amount_sound :
      (lock : Script) (vote : Bytes) → check_amount P c lock vote ≡ ok tt → Amounts lock vote
  unfolding check_amount le_bytes_or
  check_amount_sound lock vote h =
      let (amount, e₁, h₁) = >>=-eq-ok (map_err (Vote.amount P vote) vote_data_invalid) _ h in
      let (expected, e₂, h₂) = >>=-eq-ok (le_bytes_or 8 amount vote_data_invalid) _ h₁ in
      let (indices, e₃, h₃) = >>=-eq-ok (map_err (Vote.dao_index P vote) vote_data_invalid) _ h₂ in
      let (items, e₄, h₄) = >>=-eq-ok (map_err (Uint16Vec.iter P indices) vote_data_invalid) _ h₃ in
      let (counts, e₅, h₅) = >>=-eq-ok (sum_deposits P c lock items 0 0) _ h₄ in
      let (e₆, h₆) = fail_if-eq-ok (counts.0 == 0 || counts.1 == 0) dao_dep_invalid _ h₅ in
      let (e₇, h₇) = fail_if-eq-ok (not (counts.1 == expected)) amount_mismatch _ h₆ in
      let (total, backed, n, t) =
        sum_deposits_sound P c lock items 0 0 counts.0 counts.1 (omega arith) e₅ in
      let size : length amount ≡ 8 = ground arith in
      let read : little_endian amount ≡ expected = ground arith in
      (
        amount,
        indices,
        items,
        total,
        map_err-eq-ok _ _ e₁,
        size,
        map_err-eq-ok _ _ e₃,
        map_err-eq-ok _ _ e₄,
        backed,
        ground arith,
        ground arith,
        ground arith,
      )

  pub check_amount_complete :
      (lock : Script) (vote : Bytes) → Amounts lock vote → check_amount P c lock vote ≡ ok tt
  unfolding check_amount le_bytes_or
  check_amount_complete lock vote (amount, indices, items, total, e₁, e₂, e₃, e₄, b, n, t, m) =
      rw (e₁, e₂, e₃, e₄, sum_deposits_complete P c lock items total 0 0 (omega arith) b)
        (ground arith)
