-- ===== src/Prelude/Errors.antt =====
-- A Go function that returns a value and an `error`.
use mathlib.Core.Logic.{◌⊎◌, inl, inr}
use mathlib.Core.Path.{◌≡◌, refl}
use mathlib.Core.Bool.{Bool, true, false}

pub data Result {ℓ κ} (E : Type ℓ) (A : Type κ) : Type (ℓ ⊔ κ) where
  ok : A → Result E A
  err : E → Result E A

infixl 5 ◌>>=◌ ◌>>◌
abbrev pub ◌>>=◌ {ℓ κ λ'} :
    {E : Type ℓ} {A : Type κ} {B : Type λ'} → Result E A → (A → Result E B) → Result E B
ok a >>= f = f a
err e >>= f = err e

abbrev pub ◌>>◌ {ℓ κ λ'} :
    {E : Type ℓ} {A : Type κ} {B : Type λ'} → Result E A → Result E B → Result E B
m >> k = m >>= λ _. k

-- `if b { return e }`
abbrev pub fail_if {ℓ} : {E : Type ℓ} → Bool → E → Result E (Unit {0})
fail_if true e = err e
fail_if false e = ok tt

module _ {ℓ κ} {E : Type ℓ} {A : Type κ} where
  pub eq_of_ok-eq : (a b : A) → ◌≡◌ {A = Result E A} (ok a) (ok b) → a ≡ b
  eq_of_ok-eq a b e = cc

  -- What follows a guard returned, so the guard did not fail.
  pub fail_if-eq_ok :
      (b : Bool) (e : E) (k : Result E A) (a : A)
      → (fail_if b e >> k) ≡ ok a
      → (b ≡ false) × (k ≡ ok a)
  fail_if-eq_ok true e k a h = cc
  fail_if-eq_ok false e k a h = (refl, h)

pub bind-eq_ok {ℓ κ λ'} :
    {E : Type ℓ} {A : Type κ} {B : Type λ'} (m : Result E A) (f : A → Result E B) (b : B)
    → (m >>= f) ≡ ok b
    → (a : A) × (m ≡ ok a) × (f a ≡ ok b)
bind-eq_ok (ok a) f b h = (a, refl, h)
bind-eq_ok (err e) f b h = absurd (cc)

pub Result-cases {ℓ κ} :
    {E : Type ℓ} {A : Type κ} (r : Result E A) → ((e : E) × (r ≡ err e)) ⊎ ((a : A) × (r ≡ ok a))
Result-cases (err e) = inl (e, refl)
Result-cases (ok a) = inr (a, refl)
