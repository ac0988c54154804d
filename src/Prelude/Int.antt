-- ===== src/Prelude/Int.antt =====
-- Signed integers over the native numbers, under the library's names (its ℤ stands on the unary ℕ).
use go_redis_smq.Prelude.Tests.{ltb, leb, if◌then◌else◌}
use Prim.Native.Nat.{ℕ, suc, ◌+◌, ◌-◌}
use mathlib.Core.Path.{◌≡◌}
use mathlib.Core.Bool.{Bool}
use native.Mathlib.Omega.{arith}

-- `negsuc n` is -(n + 1).
pub data ℤ : Type 0 where
  pos : ℕ → ℤ
  negsuc : ℕ → ℤ

abbrev pub pos_part : ℤ → ℕ
pos_part (pos n) = n
pos_part (negsuc n) = 0

abbrev pub neg_part : ℤ → ℕ
neg_part (pos n) = 0
neg_part (negsuc n) = suc n

abbrev pub ltb_ℤ : ℤ → ℤ → Bool
ltb_ℤ a b = ltb (pos_part a + neg_part b) (pos_part b + neg_part a)

-- `if x < 0 { x = 0 }`
abbrev pub clamp : ℤ → ℕ
clamp (pos n) = n
clamp (negsuc n) = 0

-- 0 < a
abbrev pub is_pos : ℤ → Bool
is_pos a = ltb 0 (pos_part a)

-- a - b, as an integer.
abbrev pub sub_ℕ : ℕ → ℕ → ℤ
sub_ℕ a b = if leb b a then pos (a - b) else negsuc (b - a - 1)

infixl 65 ◌+ℤ◌ ◌-ℤ◌
unfoldable pub ◌+ℤ◌ : ℤ → ℤ → ℤ
a +ℤ b = sub_ℕ (pos_part a + pos_part b) (neg_part a + neg_part b)

unfoldable pub ◌-ℤ◌ : ℤ → ℤ → ℤ
a -ℤ b = sub_ℕ (pos_part a + neg_part b) (neg_part a + pos_part b)

-- What `omega` needs to know of the two, and of equality.
pub +ℤ_parts :
    (a b : ℤ)
    → pos_part (a +ℤ b) + neg_part a + neg_part b ≡ neg_part (a +ℤ b) + pos_part a + pos_part b
unfolding ◌+ℤ◌
+ℤ_parts a b = ground arith

pub -ℤ_parts :
    (a b : ℤ)
    → pos_part (a -ℤ b) + neg_part a + pos_part b ≡ neg_part (a -ℤ b) + pos_part a + neg_part b
unfolding ◌-ℤ◌
-ℤ_parts a b = ground arith

pub eq_of_parts : (a b : ℤ) → pos_part a + neg_part b ≡ pos_part b + neg_part a → a ≡ b
eq_of_parts a b h = ground arith

pub ruleset integers = (arith, +ℤ_parts, -ℤ_parts, eq_of_parts)

-- Sums that change by a natural number.
pub add_to : (a : ℤ) (n m k : ℕ) → a ≡ pos n → m ≡ n + k → a +ℤ pos k ≡ pos m
unfolding ◌+ℤ◌
add_to a n m k e h = ground (arith, e)

pub take_from : (a : ℤ) (n m k : ℕ) → a ≡ pos n → m + k ≡ n → a -ℤ pos k ≡ pos m
unfolding ◌-ℤ◌
take_from a n m k e h = ground (arith, e)

pub sum-sub_right : (a b c : ℤ) → a +ℤ (b -ℤ c) ≡ (a +ℤ b) -ℤ c
sum-sub_right a b c = omega integers

pub sum-add_left : (a b c : ℤ) → (a +ℤ c) +ℤ b ≡ (a +ℤ b) +ℤ c
sum-add_left a b c = omega integers

pub sum_exchange : (a b c : ℤ) → (a -ℤ c) +ℤ (b +ℤ c) ≡ a +ℤ b
sum_exchange a b c = omega integers
