-- ===== src/Count/Order.antt =====
-- The totals, and the order in which the entries of the map are visited.
use mathlib.Core.List.{Perm, Permᴰ}
use mathlib.Core.Logic.{∥∥₁_elim}
use native.Mathlib.Nat.{ℕ_set}
use ckb_vote_poc.Base.{ℕ, ◌≡◌, ap₂, ◌∙◌, sym, min, arith}
use ckb_vote_poc.Count.Dict.{Map}
use ckb_vote_poc.Count.{u64_max, tally}
use ckb_vote_poc.Count.Tally.{yes_sum, no_sum, tally-sums}

yes_sum-perm : {l m : Map (ℕ × ℕ)} → Permᴰ l m → yes_sum l ≡ yes_sum m
unfolding yes_sum
yes_sum-perm Permᴰ.nil = omega arith
yes_sum-perm (Permᴰ.cons {l₁ = l} {l₂ = m} e p) = cc (e, yes_sum-perm p)
yes_sum-perm (Permᴰ.swap {a = a} {b = b} {l = l} e f) = rw (← e, ← f) (omega arith)
yes_sum-perm (Permᴰ.trans p q) = yes_sum-perm p ∙ yes_sum-perm q

no_sum-perm : {l m : Map (ℕ × ℕ)} → Permᴰ l m → no_sum l ≡ no_sum m
unfolding no_sum
no_sum-perm Permᴰ.nil = omega arith
no_sum-perm (Permᴰ.cons {l₁ = l} {l₂ = m} e p) = cc (e, no_sum-perm p)
no_sum-perm (Permᴰ.swap {a = a} {b = b} {l = l} e f) = rw (← e, ← f) (omega arith)
no_sum-perm (Permᴰ.trans p q) = no_sum-perm p ∙ no_sum-perm q

-- Two maps with the same entries in any order have the same totals.
pub tally-perm : (l m : Map (ℕ × ℕ)) → Perm l m → tally 0 0 l ≡ tally 0 0 m
tally-perm l m p =
    tally-sums l
    ∙ ap₂ (λ y n. (min y u64_max, min n u64_max)) (∥∥₁_elim p (ℕ_set _ _) yes_sum-perm)
        (∥∥₁_elim p (ℕ_set _ _) no_sum-perm)
    ∙ sym (tally-sums m)
