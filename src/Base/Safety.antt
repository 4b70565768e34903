-- ===== src/Base/Safety.antt =====
-- Runs that return, and runs that do not panic.
use mathlib.Core.Path.{◌≡◌, refl}
use mathlib.Core.Bool.{Bool, true, false}
use mathlib.Core.Option.{Option, none, some}
use ckb_vote_poc.Base.Tests.{if◌then◌else◌}
use ckb_vote_poc.Base.Outcome.{Result, ok, err, panic, ◌>>=◌, ◌>>◌, fail_if, ok_or, map_err}

-- The run returns a value that meets a predicate.
abbrev pub Returns {ℓ κ μ} :
    {E : Type ℓ} {A : Type κ} → (A → Type μ) → Result E A → Type (ℓ ⊔ κ ⊔ μ)
Returns {A = A} F run = (a : A) × (run ≡ ok a) × F a

-- The run returns a value.
abbrev pub Succeeds {ℓ κ} : {E : Type ℓ} {A : Type κ} → Result E A → Type (ℓ ⊔ κ)
Succeeds {A = A} run = (a : A) × (run ≡ ok a)

-- The run does not panic.
abbrev pub NoPanic {ℓ κ} : {E : Type ℓ} {A : Type κ} → Result E A → Type 0
NoPanic (ok a) = Unit
NoPanic (err e) = Unit
NoPanic panic = ⊥

module _ {ℓ κ} {E : Type ℓ} {A : Type κ} where
  pub Returns-bind {μ ν π} :
      {B : Type μ} {F : A → Type ν} {G : B → Type π} (run : Result E A) (next : A → Result E B)
      → Returns F run
      → ((a : A) → F a → Returns G (next a))
      → Returns G (run >>= next)
  Returns-bind run next (a, e, p) q = rw e (q a p)

  pub Succeeds-bind {μ} :
      {B : Type μ} (run : Result E A) (next : A → Result E B)
      → Succeeds run
      → ((a : A) → run ≡ ok a → Succeeds (next a))
      → Succeeds (run >>= next)
  Succeeds-bind run next (a, e) q = rw e (q a e)

  pub Succeeds-NoPanic : (run : Result E A) → Succeeds run → NoPanic run
  Succeeds-NoPanic run (a, e) = rw e tt

  pub Returns-NoPanic {μ} : {F : A → Type μ} (run : Result E A) → Returns F run → NoPanic run
  Returns-NoPanic run (a, e, p) = rw e tt

  pub NoPanic-bind {μ} :
      {B : Type μ} (run : Result E A) (next : A → Result E B)
      → NoPanic run
      → ((a : A) → run ≡ ok a → NoPanic (next a))
      → NoPanic (run >>= next)
  NoPanic-bind (ok a) next p q = q a refl
  NoPanic-bind (err e) next p q = tt
  NoPanic-bind panic next p q = elim p [ ]

  pub NoPanic-fail_if :
      (b : Bool) (e : E) (next : Result E A)
      → (b ≡ false → NoPanic next)
      → NoPanic (fail_if b e >> next)
  NoPanic-fail_if true e next q = tt
  NoPanic-fail_if false e next q = q refl

  pub NoPanic-if :
      (b : Bool) (x y : Result E A)
      → (b ≡ true → NoPanic x)
      → (b ≡ false → NoPanic y)
      → NoPanic (if b then x else y)
  NoPanic-if true x y p q = p refl
  NoPanic-if false x y p q = q refl

  pub NoPanic-ok_or : (o : Option A) (e : E) → NoPanic (ok_or o e)
  NoPanic-ok_or none e = tt
  NoPanic-ok_or (some a) e = tt

  pub NoPanic-map_err {μ} :
      {F : Type μ} (run : Result E A) (f : F) → NoPanic run → NoPanic (map_err run f)
  NoPanic-map_err (ok a) f p = tt
  NoPanic-map_err (err e) f p = tt
  NoPanic-map_err panic f p = elim p [ ]
