-- ===== src/DecimalMap/Weight.antt =====
-- The number that `BuildDecimalMap` adds up, digit by digit.
use orin_device_system.Common.{
  ℕ, zero, suc, ◌+◌, ◌-◌, ◌*◌, ◌^◌, ◌≤◌, ◌<◌, ℤ, pos, negsuc, ◌+ℤ◌, ◌-ℤ◌, wrap64, wrap64_of_small,
  List, [], ◌∷◌, false, if◌then◌else◌, ◌≡◌, refl, ap, arith, ◌∙◌, All, ℕ_discrete,
}
use orin_device_system.Common.Sets.{elem, Nodup}
use orin_device_system.DecimalMap.{int64_pow10, add_powers}
use native.Mathlib.Nat.{pow-succ', pow-zero}

-- The number whose digit `i` is one if `j + i` is in the list, for `i` below `n`.
unfoldable pub weight : List ℤ → ℕ → ℕ → ℕ
weight xs j zero = 0
weight xs j (suc n) = (if elem (pos j) xs then 1 else 0) + 10 * weight xs (suc j) n

weight_below : (xs : List ℤ) (i j n : ℕ) → i < j → weight (pos i ∷ xs) j n ≡ weight xs j n
unfolding weight elem
weight_below xs i j zero h = refl
weight_below xs i j (suc n) h = ground (arith, weight_below xs i (suc j) n)

pow_step : (i j : ℕ) → j < i → 10 ^ (i - j) ≡ 10 * 10 ^ (i - suc j)
pow_step i j h = let e : i - j ≡ suc (i - suc j) = omega arith in rw e (pow-succ' 10 (i - suc j))

-- A new ID adds its power of ten.
weight-cons :
    (xs : List ℤ) (i j n : ℕ)
    → j ≤ i
    → i < j + n
    → elem (pos i) xs ≡ false
    → weight (pos i ∷ xs) j n ≡ 10 ^ (i - j) + weight xs j n
unfolding weight elem
weight-cons xs i j zero l h e = absurd (omega arith)
weight-cons xs i j (suc n) l h e = elim (ℕ_discrete i j) [
  | yes same ↦
      let e' : i - j ≡ 0 = omega arith in
      rw e' (ground (arith, weight_below xs i (suc j) n, pow-zero 10))
  | no other ↦ ground (arith, weight-cons xs i (suc j) n (omega arith), pow_step i j (omega arith))
]

pub weight-nil : (j n : ℕ) → weight [] j n ≡ 0
unfolding weight elem
weight-nil j zero = refl
weight-nil j (suc n) = omega (arith, weight-nil (suc j) n)

-- With `n` digits the number is below 10^n.
pub weight-lt : (xs : List ℤ) (j n : ℕ) → 9 * weight xs j n + 1 ≤ 10 ^ n
unfolding weight
weight-lt xs j zero = ground (arith, pow-zero 10)
weight-lt xs j (suc n) = ground (arith, weight-lt xs (suc j) n, pow-succ' 10 n)

-- The IDs of a list lie in the window of `n` digits from `m` on.
abbrev pub InWindow : ℕ → ℕ → ℤ → Type 0
InWindow m n (pos i) = (m ≤ i) × (i < m + n)
InWindow m n (negsuc i) = ⊥

int64_pow10-window :
    (huge : ℕ → ℤ) (m i : ℕ)
    → m < 2 ^ 62
    → InWindow m 19 (pos i)
    → int64_pow10 huge (wrap64 (pos i -ℤ pos m)) ≡ pos (10 ^ (i - m))
unfolding int64_pow10 ◌-ℤ◌
int64_pow10-window huge m i h w = ground (arith, wrap64_of_small (i - m))

wrap64-add : (r p : ℕ) → r + p < 2 ^ 63 → wrap64 (pos r +ℤ pos p) ≡ pos (r + p)
unfolding ◌+ℤ◌
wrap64-add r p h = ground (arith, wrap64_of_small (r + p))

-- No sum of the loop wraps around.
pub add_powers-weight :
    (huge : ℕ → ℤ) (m : ℕ) (xs : List ℤ) (r : ℕ)
    → m < 2 ^ 62
    → All (InWindow m 19) xs
    → Nodup xs
    → r + weight xs m 19 < 2 ^ 63
    → add_powers huge (pos m) xs (pos r) ≡ pos (r + weight xs m 19)
unfolding add_powers
add_powers-weight huge m [] r h w d b = ground (arith, weight-nil m 19)
add_powers-weight huge m (negsuc i ∷ xs) r h w d b = absurd w.0
add_powers-weight huge m (pos i ∷ xs) r h w d b =
    let p = 10 ^ (i - m) in
    let split = weight-cons xs i m 19 (omega arith) (omega arith) d.0 in
    rw (int64_pow10-window huge m i h w.0) (
      rw (wrap64-add r p (omega (arith, split))) (
        rw split (
          add_powers-weight huge m xs (r + p) h w.1 d.1 (omega (arith, split))
          ∙ ap pos (omega arith))))
