-- ===== src/Syscalls/Exit.antt =====
-- How a script ends: helpers for its safety.
use ckb_vote_poc.Base.{
  ℕ, ◌<◌, ◌≡◌, refl, sym, subst, ◌∙◌, ◌↔◌, none, some, [], ◌∷◌, length, get_elem?, Result, ok, err,
  panic, unwrap, map_err, map_err-eq-ok, ok_inj, Returns, NoPanic, arith,
}
use ckb_vote_poc.Chain.{Bytes}

pub unwrap_first {ℓ} :
    (E : Type ℓ) (slice : Bytes) → length slice ≡ 1 → NoPanic {E = E} (unwrap (get_elem? slice 0))
unwrap_first E [] h = absurd (omega arith)
unwrap_first E (byte ∷ rest) h = tt

-- A read that returns, under the script's own error.
module _ {ℓ κ μ ν} {E : Type ℓ} {D : Type κ} {A : Type μ} {F : A → Type ν} where
  pub returned_NoPanic : (read : Result D A) (e : E) → Returns F read → NoPanic (map_err read e)
  returned_NoPanic read e (part, r, p) = rw r tt

  pub returned_eq :
      (read : Result D A) (e : E) (a : A) → Returns F read → map_err read e ≡ ok a → F a
  returned_eq read e a (part, r, p) h =
      let same : part ≡ a = ok_inj (sym r ∙ map_err-eq-ok read e h) in subst F same p

-- The exit code of a run, where every error has a number that is not 0.
pub exit_code_of {ℓ} :
    {E : Type ℓ} (code : E → ℕ) (r : Result E (Unit {0}))
    → ((e : E) → 0 < code e)
    → NoPanic r
    → (n : ℕ) × (elim r [ ok u ↦ some 0 | err e ↦ some (code e) | panic ↦ none ] ≡ some n)
      × ((n ≡ 0) ↔ (r ≡ ok tt))
exit_code_of code (ok tt) q p = (0, refl, (λ z. refl, λ z. refl))
exit_code_of code (err e) q p = (code e, refl, (λ z. absurd (omega (arith, q e)), λ z. cc z))
exit_code_of code panic q p = elim p [ ]
