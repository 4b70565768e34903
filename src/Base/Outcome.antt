-- ===== src/Base/Outcome.antt =====
-- What fallible code returns: a value, an error value, or a panic that ends the program.
use mathlib.Core.Path.{◌≡◌, refl}
use mathlib.Core.Option.{Option, none, some}
use mathlib.Core.Logic.{◌⊎◌, inl, inr}
use mathlib.Core.Bool.{Bool, true, false}

pub data Result {ℓ κ} (E : Type ℓ) (A : Type κ) : Type (ℓ ⊔ κ) where
  panic : Result E A
  err : E → Result E A
  ok : A → Result E A

infixl 5 ◌>>=◌ ◌>>◌
abbrev pub ◌>>=◌ {ℓ κ μ} :
    {E : Type ℓ} {A : Type κ} {B : Type μ} (step : Result E A) (next : A → Result E B) → Result E B
panic >>= next = panic
err failure >>= next = err failure
ok value >>= next = next value

abbrev pub ◌>>◌ {ℓ κ} : {E : Type ℓ} {B : Type κ} → Result E (Unit {0}) → Result E B → Result E B
step >> next = step >>= λ done. next

-- `if b { return Err(e) }`
abbrev pub fail_if {ℓ} : {E : Type ℓ} → Bool → E → Result E (Unit {0})
fail_if true e = err e
fail_if false e = ok tt

-- `o.ok_or(e)?` and `o.unwrap()`
abbrev pub ok_or {ℓ κ} : {E : Type ℓ} {A : Type κ} → Option A → E → Result E A
ok_or none e = err e
ok_or (some a) e = ok a

abbrev pub unwrap {ℓ κ} : {E : Type ℓ} {A : Type κ} → Option A → Result E A
unwrap none = panic
unwrap (some a) = ok a

-- `r.expect(...)`
abbrev pub expect {ℓ κ μ} : {E : Type ℓ} {F : Type κ} {A : Type μ} → Result E A → Result F A
expect (ok a) = ok a
expect (err e) = panic
expect panic = panic

-- `r.map_err(|_| e)?`
abbrev pub map_err {ℓ κ μ} : {E : Type ℓ} {F : Type κ} {A : Type μ} → Result E A → F → Result F A
map_err (ok a) f = ok a
map_err (err e) f = err f
map_err panic f = panic

pub >>=-eq-ok {ℓ κ μ} :
    {E : Type ℓ} {A : Type κ} {B : Type μ} (step : Result E A) (next : A → Result E B) {result : B}
    → (step >>= next) ≡ ok result
    → (value : A) × (step ≡ ok value) × (next value ≡ ok result)
>>=-eq-ok panic next h = cc
>>=-eq-ok (err failure) next h = cc
>>=-eq-ok (ok value) next h = (value, refl, h)

pub ok_inj {ℓ κ} : {E : Type ℓ} {A : Type κ} {a b : A} → ◌≡◌ {A = Result E A} (ok a) (ok b) → a ≡ b
ok_inj e = cc

pub >>-eq-err {ℓ κ} :
    {E : Type ℓ} {B : Type κ} (m : Result E (Unit {0})) (k : Result E B) {e : E}
    → (m >> k) ≡ err e
    → (m ≡ err e) ⊎ ((m ≡ ok tt) × (k ≡ err e))
>>-eq-err (ok u) k h = inr (refl, h)
>>-eq-err (err x) k h = inl (cc)
>>-eq-err panic k h = cc

-- Inversions of successful steps.
module _ {ℓ κ} {E : Type ℓ} {A : Type κ} where
  pub ok_or-eq-ok : (o : Option A) (e : E) {a : A} → ok_or o e ≡ ok a → o ≡ some a
  ok_or-eq-ok none e h = cc
  ok_or-eq-ok (some b) e h = cc

  pub unwrap-eq-ok : (o : Option A) {a : A} → ◌≡◌ {A = Result E A} (unwrap o) (ok a) → o ≡ some a
  unwrap-eq-ok none h = cc
  unwrap-eq-ok (some b) h = cc

  pub map_err-eq-ok {μ} :
      {F : Type μ} (m : Result E A) (f : F) {a : A} → map_err m f ≡ ok a → m ≡ ok a
  map_err-eq-ok (ok b) f h = cc
  map_err-eq-ok (err e) f h = cc
  map_err-eq-ok panic f h = cc

pub expect-eq-ok {ℓ κ μ} :
    {E : Type ℓ} {F : Type κ} {A : Type μ} (m : Result E A) {a : A}
    → ◌≡◌ {A = Result F A} (expect m) (ok a)
    → m ≡ ok a
expect-eq-ok (ok b) h = cc
expect-eq-ok (err e) h = cc
expect-eq-ok panic h = cc

-- A guard that passed, and what follows it.
pub fail_if-eq-ok {ℓ κ} :
    {E : Type ℓ} {B : Type κ} (b : Bool) (e : E) (k : Result E B) {r : B}
    → (fail_if b e >> k) ≡ ok r
    → (b ≡ false) × (k ≡ ok r)
fail_if-eq-ok true e k h = cc
fail_if-eq-ok false e k h = (refl, h)

pub >>=-assoc {ℓ κ μ ν} :
    {E : Type ℓ} {A : Type κ} {B : Type μ} {C : Type ν} (step : Result E A) (next : A → Result E B)
    (last : B → Result E C)
    → ((step >>= next) >>= last) ≡ (step >>= λ a. next a >>= last)
>>=-assoc panic next last = refl
>>=-assoc (err e) next last = refl
>>=-assoc (ok a) next last = refl
