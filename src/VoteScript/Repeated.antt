-- ===== src/VoteScript/Repeated.antt =====
-- A vote that lists the same cell dep several times, before `check_amount` of
-- contracts/vote-type-script/src/main.rs.
use ckb_vote_poc.Base.{
  ℕ, zero, suc, ◌+◌, ◌*◌, ◌≡◌, ◌<◌, ◌↔◌, min, List, [], ◌∷◌, length, ok, subst, arith, refl,
}
use ckb_vote_poc.Chain.{Bytes, Packages, Script}
use ckb_vote_poc.Molecule.Vote
use ckb_vote_poc.Molecule.Uint16Vec
use ckb_vote_poc.Count.{u64_max}
use ckb_vote_poc.Count.Read.{from_le_bytes, little_endian}
use ckb_vote_poc.Syscalls.{Context}
use ckb_vote_poc.VoteScript.{le_bytes_or, check_amount}
use ckb_vote_poc.VoteScript.Deposits.{IsDeposit, Backed, none_left, deposit, sum_deposits_complete}

-- A list of `n` times the item.
abbrev pub copies : ℕ → Bytes → List Bytes
copies zero item = []
copies (suc n) item = item ∷ copies n item

length-copies : (n : ℕ) (item : Bytes) → length (copies n item) ≡ n
length-copies zero item = refl
length-copies (suc n) item = let h = length-copies n item in omega arith

product_positive : (n capacity : ℕ) → 0 < n → 0 < capacity → 0 < n * capacity
product_positive zero capacity h h' = absurd (omega arith)
product_positive (suc n) capacity h h' =
    let more : capacity + n * capacity ≡ suc n * capacity = omega arith in omega arith

module _ (P : Packages) (c : Context) where
  copies-Backed :
      (lock : Script) (item : Bytes) (idx capacity n : ℕ)
      → from_le_bytes 2 item ≡ ok idx
      → IsDeposit P c lock idx capacity
      → Backed P c lock (copies n item) (n * capacity)
  copies-Backed lock item idx capacity zero e d =
      let none : 0 ≡ 0 * capacity = omega arith in subst (Backed P c lock []) none none_left
  copies-Backed lock item idx capacity (suc n) e d =
      let more : capacity + n * capacity ≡ suc n * capacity = omega arith in
      subst (Backed P c lock (copies (suc n) item)) more
        (deposit e d (copies-Backed lock item idx capacity n e d))

  -- A vote with an amount of eight bytes, whose list of cell deps is `n` times, for an `n` of 1 or
  -- more, the index of one DAO deposit of the voter with a capacity that is not 0, passes the check
  -- of its amount exactly if it claims `n` times that capacity, or the largest u64 where that is
  -- smaller.
  pub check_amount-copies :
      (lock : Script) (vote amount indices item : Bytes) (idx capacity n : ℕ)
      → Vote.amount P vote ≡ ok amount
      → length amount ≡ 8
      → Vote.dao_index P vote ≡ ok indices
      → Uint16Vec.iter P indices ≡ ok (copies n item)
      → from_le_bytes 2 item ≡ ok idx
      → IsDeposit P c lock idx capacity
      → 0 < capacity
      → 0 < n
      → (check_amount P c lock vote ≡ ok tt) ↔ (little_endian amount ≡ min (n * capacity) u64_max)
  unfolding check_amount le_bytes_or
  check_amount-copies lock vote amount indices item idx capacity n e₁ size e₂ e₃ read d positive
        some_listed =
      let backed = copies-Backed lock item idx capacity n read d in
      let summed =
        sum_deposits_complete P c lock (copies n item) (n * capacity) 0 0 (omega arith) backed in
      let listed = length-copies n item in
      let product : 0 < n * capacity = product_positive n capacity some_listed positive in
      rw (e₁, e₂, e₃, summed, listed) (λ h. ground arith, λ h. ground arith)
