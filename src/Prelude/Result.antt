-- ===== src/Prelude/Result.antt =====
-- What a call returns or raises, and what holds of a call that returns.
use mathlib.Core.Path.{◌≡◌, refl, subst}
use mathlib.Core.Bool.{Bool, true, false}
use mathlib.Core.Logic.{◌⊎◌, inl, inr}

pub data Result {ℓ κ} (E : Type ℓ) (A : Type κ) : Type (ℓ ⊔ κ) where
  ok : A → Result E A
  raise : E → Result E A

module _ {ℓ} {E : Type ℓ} where
  infixl 5 ◌>>=◌ ◌>>◌
  abbrev pub ◌>>=◌ {κ μ} : {A : Type κ} {B : Type μ} → Result E A → (A → Result E B) → Result E B
  ok a >>= f = f a
  raise e >>= f = raise e

  abbrev pub ◌>>◌ {μ} : {B : Type μ} → Result E (Unit {0}) → Result E B → Result E B
  m >> k = m >>= λ _. k

  -- `if not test: raise error`.
  abbrev pub require : Bool → E → Result E (Unit {0})
  require true e = ok tt
  require false e = raise e

  -- What holds of the result of a call that returns.
  abbrev pub OnOk {κ μ} : {A : Type κ} → (A → Type μ) → Result E A → Type μ
  OnOk P (ok a) = P a
  OnOk P (raise e) = Unit

  pub OnOk-bind {κ μ ν} :
      {A : Type κ} {B : Type μ} (P : B → Type ν) (m : Result E A) (f : A → Result E B)
      → ((a : A) → m ≡ ok a → OnOk P (f a))
      → OnOk P (m >>= f)
  OnOk-bind P (ok a) f h = h a refl
  OnOk-bind P (raise e) f h = tt

  pub OnOk-require {μ ν} :
      {B : Type μ} (P : B → Type ν) (test : Bool) (e : E) (f : Unit {0} → Result E B)
      → (test ≡ true → OnOk P (f tt))
      → OnOk P (require test e >>= f)
  OnOk-require P true e f h = h refl
  OnOk-require P false e f h = tt

  pub OnOk-returned {κ μ} :
      {A : Type κ} (P : A → Type μ) (m : Result E A) (a : A) → OnOk P m → m ≡ ok a → P a
  OnOk-returned P m a h e = subst (OnOk P) e h

  pub OnOk-map {κ μ ν} :
      {A : Type κ} {P : A → Type μ} (Q : A → Type ν) (m : Result E A)
      → OnOk P m
      → ((a : A) → P a → Q a)
      → OnOk Q m
  OnOk-map Q (ok a) h f = f a h
  OnOk-map Q (raise e) h f = tt

  pub Result-cases {κ} :
      {A : Type κ} (m : Result E A) → ((a : A) × (m ≡ ok a)) ⊎ ((e : E) × (m ≡ raise e))
  Result-cases (ok a) = inl (a, refl)
  Result-cases (raise e) = inr (e, refl)
