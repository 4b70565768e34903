-- ===== src/Count/Tally.antt =====
-- The sums of `count_vote`, and when a proposal passes.
use ckb_vote_poc.Base.{
  ℕ, ◌+◌, ◌*◌, ◌^◌, ◌≤◌, ◌<◌, min, ◌≡◌, ◌∙◌, ◌↔◌, true, [], ◌∷◌, arith, ◌==◌, if◌then◌else◌,
}
use ckb_vote_poc.Count.Dict.{Map}
use ckb_vote_poc.Count.{u64_max, tally, min_shannon, decide_passed}

-- The sums without a limit.
unfoldable pub yes_sum : Map (ℕ × ℕ) → ℕ
yes_sum [] = 0
yes_sum ((voter, (direction, amount)) ∷ rest) =
    (if direction == 1 then amount else 0) + yes_sum rest

unfoldable pub no_sum : Map (ℕ × ℕ) → ℕ
no_sum [] = 0
no_sum ((voter, (direction, amount)) ∷ rest) = (if direction == 1 then 0 else amount) + no_sum rest

tally_from :
    (m : Map (ℕ × ℕ)) (y n : ℕ)
    → y ≤ u64_max
    → n ≤ u64_max
    → tally y n m ≡ (min (y + yes_sum m) u64_max, min (n + no_sum m) u64_max)
unfolding tally yes_sum no_sum
tally_from [] y n hy hn = ground arith
tally_from ((voter, (direction, amount)) ∷ rest) y n hy hn = ground (
  arith,
  tally_from rest (min (y + amount) u64_max) n,
  tally_from rest y (min (n + amount) u64_max),
)

-- The two totals are the sums of the YES amounts and of all other amounts, cut at the largest u64:
-- saturating at each step is saturating once.
pub tally-sums : (m : Map (ℕ × ℕ)) → tally 0 0 m ≡ (min (yes_sum m) u64_max, min (no_sum m) u64_max)
tally-sums m = tally_from m 0 0 (omega arith) (omega arith) ∙ ground arith

-- A proposal passes exactly when YES exceeds NO and both together exceed the requirement, which is
-- the proposal's number of CKBytes in shannon as long as that fits 64 bits.
pub decide_passed_iff :
    (yes_vote no_vote minimal_req : ℕ)
    → minimal_req * 100000000 < 2 ^ 64
    → (decide_passed yes_vote no_vote minimal_req ≡ true)
      ↔ ((no_vote < yes_vote) × (minimal_req * 100000000 < min (yes_vote + no_vote) u64_max))
unfolding decide_passed
decide_passed_iff yes_vote no_vote minimal_req h = (λ p. ground arith, λ p. ground arith)

-- A requirement that does not fit 64 bits in shannon wraps: some total below the requirement passes.
pub decide_passed_wraps :
    (minimal_req : ℕ)
    → 2 ^ 64 ≤ minimal_req * 100000000
    → (yes_vote : ℕ) × (yes_vote < 2 ^ 64)
      × (yes_vote < minimal_req * 100000000)
      × (decide_passed yes_vote 0 minimal_req ≡ true)
unfolding decide_passed
decide_passed_wraps minimal_req h =
    (min_shannon minimal_req + 1, omega arith, omega arith, ground arith)
