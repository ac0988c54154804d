-- ===== src/Prelude/Options.antt =====
-- Optional values: a tag for a call that may fail, and a case split that keeps the equation.
use mathlib.Core.Path.{◌≡◌, refl}
use mathlib.Core.Logic.{◌⊎◌, inl, inr}
use mathlib.Core.Bool.{Bool, true, false}
use mathlib.Core.Option.{Option, none, some}

pub Option-cases {ℓ} : {A : Type ℓ} (o : Option A) → (o ≡ none) ⊎ ((a : A) × (o ≡ some a))
Option-cases none = inl refl
Option-cases (some a) = inr (a, refl)

pub some_inj {ℓ} : {A : Type ℓ} {a b : A} → some a ≡ some b → a ≡ b
some_inj e = cc

abbrev pub is_some {ℓ} : {A : Type ℓ} → Option A → Bool
is_some none = false
is_some (some _) = true

-- What a Go function returns: its error, or a value and a nil error.
pub data Result {ℓ κ} (Failure : Type ℓ) (Value : Type κ) : Type (ℓ ⊔ κ) where
  err : Failure → Result Failure Value
  ok : Value → Result Failure Value

-- `if !condition { return failure }`
abbrev pub guard {ℓ} : {Failure : Type ℓ} → Bool → Failure → Result Failure (Unit {0})
guard false failure = err failure
guard true failure = ok tt

infixl 5 ◌>>=◌
abbrev pub ◌>>=◌ {ℓ κ μ} :
    {Failure : Type ℓ} {Value : Type κ} {Next : Type μ}
    → Result Failure Value
    → (Value → Result Failure Next)
    → Result Failure Next
err failure >>= next = err failure
ok value >>= next = next value

pub Result-cases {ℓ κ} :
    {E : Type ℓ} {A : Type κ} (r : Result E A) → ((a : A) × (r ≡ ok a)) ⊎ ((e : E) × (r ≡ err e))
Result-cases (ok a) = inl (a, refl)
Result-cases (err e) = inr (e, refl)

-- If a sequence succeeds, so did its first part, and then the rest on its value.
pub >>=-eq-ok {ℓ κ μ} :
    {Failure : Type ℓ} {Value : Type κ} {Next : Type μ} (first : Result Failure Value)
    (rest : Value → Result Failure Next) {last : Next}
    → (first >>= rest) ≡ ok last
    → (value : Value) × (first ≡ ok value) × (rest value ≡ ok last)
>>=-eq-ok (err failure) rest done = cc
>>=-eq-ok (ok value) rest done = (value, refl, done)
