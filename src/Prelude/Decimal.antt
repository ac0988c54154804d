-- ===== src/Prelude/Decimal.antt =====
-- `strconv.Itoa` and `strconv.Atoi` on the numbers that the library stores, none of them negative.
use go_redis_smq.Prelude.Tests.{ltb, leb, if◌then◌else◌, Bool-cases}
use go_redis_smq.Prelude.Text.{Text}
use Prim.Native.Nat.{ℕ, zero, suc, ◌+◌, ◌-◌, ◌*◌, ◌/◌, ◌%◌, ◌<◌}
use mathlib.Core.Path.{◌≡◌, refl, ap, ◌∙◌}
use mathlib.Core.Bool.{◌&&◌}
use mathlib.Core.Logic.{inl, inr, ◌≢◌}
use mathlib.Core.List.{[], ◌∷◌}
use mathlib.Core.Option.{Option, none, some}
use native.Mathlib.Omega.{arith}

digits : ℕ → ℕ → Text → Text
digits zero n t = t
digits (suc f) n t =
    let more = digits f (n / 10) ((48 + n % 10) ∷ t) in if ltb n 10 then (48 + n) ∷ t else more

unfoldable pub itoa : ℕ → Text
unfolding digits
itoa n = digits (suc n) n []

read_digits : Text → ℕ → Option ℕ
read_digits [] n = some n
read_digits (c ∷ cs) n =
    let rest = read_digits cs (n * 10 + (c - 48)) in if leb 48 c && leb c 57 then rest else none

unfoldable pub atoi : Text → Option ℕ
unfolding read_digits
atoi [] = none
atoi (c ∷ cs) = read_digits (c ∷ cs) 0

read_digit :
    (n a : ℕ) (t : Text) → n < 10 → read_digits ((48 + n) ∷ t) a ≡ read_digits t (a * 10 + n)
unfolding read_digits
read_digit n a t h =
    let e : a * 10 + (48 + n - 48) ≡ a * 10 + n = omega arith in rw e (ground arith)

read_digits-digits : (f n : ℕ) (t : Text) → n < f → read_digits (digits f n t) 0 ≡ read_digits t n
unfolding digits
read_digits-digits zero n t h = elim h [ ]
read_digits-digits (suc f) n t h = elim (Bool-cases (ltb n 10)) [
  | inl small ↦ rw small (read_digit n 0 t (ground arith) ∙ ap (read_digits t) (omega arith))
  | inr big ↦ rw big (
      read_digits-digits f (n / 10) ((48 + n % 10) ∷ t) (ground arith)
      ∙ read_digit (n % 10) (n / 10) t (omega arith)
      ∙ ap (read_digits t) (omega arith))
]

digits_cons-ne-nil : (f n c : ℕ) (t : Text) → digits f n (c ∷ t) ≢ []
unfolding digits
digits_cons-ne-nil zero n c t = λ e. cc
digits_cons-ne-nil (suc f) n c t = elim (Bool-cases (ltb n 10)) [
  | inl small ↦ rw small (λ e. cc)
  | inr big ↦ rw big (digits_cons-ne-nil f (n / 10) (48 + n % 10) (c ∷ t))
]

digits-ne-nil : (f n : ℕ) → digits (suc f) n [] ≢ []
unfolding digits
digits-ne-nil f n = elim (Bool-cases (ltb n 10)) [
  | inl small ↦ rw small (λ e. cc)
  | inr big ↦ rw big (digits_cons-ne-nil f (n / 10) (48 + n % 10) [])
]

atoi-ne-nil : (t : Text) → t ≢ [] → atoi t ≡ read_digits t 0
unfolding atoi
atoi-ne-nil [] h = absurd (h refl)
atoi-ne-nil (c ∷ t) h = refl

-- A number that was written in decimal is read back.
pub atoi-itoa : (n : ℕ) → atoi (itoa n) ≡ some n
unfolding itoa read_digits
atoi-itoa n =
    atoi-ne-nil (digits (suc n) n []) (digits-ne-nil n n)
    ∙ read_digits-digits (suc n) n [] (omega arith)
    ∙ read_none n
  where
    read_none : (m : ℕ) → read_digits [] m ≡ some m
    read_none m = refl
