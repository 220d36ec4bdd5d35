-- ===== src/Common/Int.antt =====
-- Go's signed integers: `ℤ` over the native numbers, and the wrap-around of int64.
use Prim.Native.Nat.{ℕ, suc, ◌+◌, ◌-◌, ◌*◌, ◌/◌, ◌%◌, ◌^◌, ◌≤◌, ◌<◌}
use mathlib.Core.Path.{◌≡◌, refl}
use mathlib.Core.Bool.{Bool}
use native.Mathlib.Omega.{arith}
use native.Mathlib.Decide.{ℕ_discrete}
use orin_device_system.Common.Tests.{ltb, leb, if◌then◌else◌}

-- `negsuc n` is -(n + 1).
pub data ℤ : Type 0 where
  pos : ℕ → ℤ
  negsuc : ℕ → ℤ

abbrev pub pos_part : ℤ → ℕ
pos_part (pos n) = n
pos_part (negsuc n) = 0

abbrev pub neg_part : ℤ → ℕ
neg_part (pos n) = 0
neg_part (negsuc n) = suc n

unfoldable pub ℤ_discrete : Discrete ℤ
unfolding ℕ_discrete
ℤ_discrete = hlevel ℕ_discrete

-- a - b, as an integer.
abbrev pub sub_ℕ : ℕ → ℕ → ℤ
sub_ℕ a b = if leb b a then pos (a - b) else negsuc (b - a - 1)

infixl 65 ◌+ℤ◌ ◌-ℤ◌
infix 50 ◌≤ℤ◌
unfoldable pub ◌+ℤ◌ : ℤ → ℤ → ℤ
a +ℤ b = sub_ℕ (pos_part a + pos_part b) (neg_part a + neg_part b)

unfoldable pub ◌-ℤ◌ : ℤ → ℤ → ℤ
a -ℤ b = sub_ℕ (pos_part a + neg_part b) (neg_part a + pos_part b)

abbrev pub ◌≤ℤ◌ : ℤ → ℤ → Type 0
a ≤ℤ b = pos_part a + neg_part b ≤ pos_part b + neg_part a

-- a < b
abbrev pub ltb_ℤ : ℤ → ℤ → Bool
ltb_ℤ a b = ltb (pos_part a + neg_part b) (pos_part b + neg_part a)

-- `/` of Go, which rounds towards zero; the divisor is a positive number here.
abbrev pub quot_ℕ : ℤ → ℕ → ℤ
quot_ℕ (pos n) d = pos (n / d)
quot_ℕ (negsuc n) d = sub_ℕ 0 (suc n / d)

abbrev pub mul_ℕ : ℕ → ℤ → ℤ
mul_ℕ k (pos n) = pos (k * n)
mul_ℕ k (negsuc n) = sub_ℕ 0 (k * suc n)

-- Two's complement: the int64 that an integer wraps to.
abbrev pub of_bits64 : ℕ → ℤ
of_bits64 r = if ltb r (2 ^ 63) then pos r else negsuc (2 ^ 64 - 1 - r)

unfoldable pub wrap64 : ℤ → ℤ
wrap64 (pos n) = of_bits64 (n % 2 ^ 64)
wrap64 (negsuc n) = of_bits64 (2 ^ 64 - 1 - n % 2 ^ 64)

pub wrap64_of_small : (n : ℕ) → n < 2 ^ 63 → wrap64 (pos n) ≡ pos n
unfolding wrap64
wrap64_of_small n h = ground arith

-- -1 wraps to itself, and one more than the largest int64 to the smallest.
wrap64_test : (wrap64 (negsuc 0) ≡ negsuc 0) × (wrap64 (pos (2 ^ 63)) ≡ negsuc (2 ^ 63 - 1))
unfolding wrap64
wrap64_test = (refl, refl)
