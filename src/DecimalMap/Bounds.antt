-- ===== src/DecimalMap/Bounds.antt =====
-- The IDs that `Parse` of pkg/scheduler/manager/decimalmap.go reads: an int64 has at most 19 digits.
use orin_device_system.Common.{
  ℕ, ℕ_discrete, zero, suc, ◌+◌, ◌*◌, ◌/◌, ◌^◌, ◌≤◌, ◌<◌, ℤ, pos, negsuc, ◌+ℤ◌, wrap64, [], ◌∷◌,
  Bool, true, false, ◌||◌, ◌==◌, if◌then◌else◌, Text, has_byte, length, ok, is_ok, err, Result, ◌≡◌,
  refl, arith, Bool-cases, ◌∙◌, ap, sym, inl, inr,
}
use mathlib.Core.Bool.{false≢true}
use orin_device_system.Common.Sets.{IntSets}
use orin_device_system.Names.{digits_from, append_reversed, format_uint, format_int}
use orin_device_system.Names.RoundTrip.{IsInt64}
use orin_device_system.DecimalMap.{new_decimal_map, parse_bits, parse}
use orin_device_system.DecimalMap.RoundTrip.{in_window, sum_fits}

-- 10 ^ k
abbrev tens : ℕ → ℕ
tens zero = 1
tens (suc k) = 10 * tens k

length-digits_from : (fuel k n : ℕ) → n < tens (suc k) → length (digits_from fuel n) ≤ suc k
unfolding digits_from
length-digits_from zero k n h = omega arith
length-digits_from (suc fuel) zero n h = ground (arith, h)
length-digits_from (suc fuel) (suc k) n h =
    ground (arith, length-digits_from fuel k (n / 10) (omega (arith, h)))

length-append_reversed : (s out : Text) → length (append_reversed s out) ≡ length s + length out
unfolding append_reversed
length-append_reversed [] out = omega arith
length-append_reversed (c ∷ s) out = omega (arith, length-append_reversed s (c ∷ out))

has_byte-append_reversed :
    (c : ℕ) (s out : Text) → has_byte c (append_reversed s out) ≡ (has_byte c s || has_byte c out)
unfolding append_reversed has_byte
has_byte-append_reversed c [] out = refl
has_byte-append_reversed c (d ∷ s) out = ground (arith, has_byte-append_reversed c s (d ∷ out))

signed : (s : Text) → has_byte b'-' (append_reversed (b'-' ∷ s) []) ≡ true
unfolding has_byte ℕ_discrete
signed s = has_byte-append_reversed b'-' (b'-' ∷ s) []

module _ ⦃S : IntSets⦄ where
  parse_bits-digits :
      (m : ℤ) (k : ℕ) (s : Text) (res t : S.IntSet) (src_str : Text)
      → parse_bits m k s res src_str ≡ ok t
      → has_byte b'-' s ≡ false
  unfolding parse_bits has_byte
  parse_bits-digits m k [] res t src_str h = refl
  parse_bits-digits m k (c ∷ s) res t src_str h = elim (Bool-cases (c == b'0' || c == b'1')) [
    | inl digit ↦ ground (arith, digit, parse_bits-digits m (suc k) s _ t src_str (rw digit at h))
    | inr other ↦ absurd (false≢true (ap is_ok (rw other at h)))
  ]

  abbrev has_ok : ℤ → Result Text S.IntSet → Bool
  has_ok x (ok r) = S.has x r
  has_ok x (err e) = false

  -- An ID of the digits from `k` on, or one that was there.
  abbrev found : S.IntSet → ℕ → ℕ → ℤ → Bool
  found res k n x = S.has x res || in_window k n x

  found_step :
      (k n : ℕ) (one : Bool) (res : S.IntSet) (x : ℤ)
      → found (if one then S.insert (pos (suc k)) res else res) (suc (suc k)) n x ≡ true
      → found res (suc k) (suc n) x ≡ true
  found_step k n one res (pos i) h = ground (arith, h, S.has-insert (pos i) (pos (suc k)) res)
  found_step k n one res (negsuc i) h = ground (arith, h, S.has-insert (negsuc i) (pos (suc k)) res)

  parse_bits-window :
      (k : ℕ) (s : Text) (res t : S.IntSet) (src_str : Text) (x : ℤ)
      → k + length s < 2 ^ 62
      → parse_bits (pos 1) k s res src_str ≡ ok t
      → S.has x t ≡ true
      → found res (suc k) (length s) x ≡ true
  unfolding parse_bits
  parse_bits-window k [] res t src_str x b h e = ground (arith, e, ap (has_ok x) h)
  parse_bits-window k (c ∷ s) res t src_str x b h e =
      let here : wrap64 (pos k +ℤ pos 1) ≡ pos (suc k) =
        sum_fits k 1 (suc k) (omega arith) (omega (arith, b)) in
      elim (Bool-cases (c == b'0' || c == b'1')) [
        | inl digit ↦
            let res' = if c == b'1' then S.insert (pos (suc k)) res else res in
            let h' : parse_bits (pos 1) (suc k) s res' src_str ≡ ok t = rw (digit, here) at h in
            found_step k (length s) (c == b'1') res x
              (parse_bits-window (suc k) s res' t src_str x (omega (arith, b)) h' e)
        | inr other ↦ absurd (false≢true (ap is_ok (rw other at h)))
      ]

  -- Of an int64, `Parse` from the start bit 1 on gives IDs from 1 to 19 only.
  pub parse-window :
      (z : ℤ) (t : S.IntSet) (x : ℤ)
      → IsInt64 z
      → (parse (new_decimal_map z (pos 1))).1 ≡ ok t
      → S.has x t ≡ true
      → in_window 1 19 x ≡ true
  unfolding parse new_decimal_map format_int format_uint
  parse-window (pos n) t x h p e =
      let digits = digits_from (suc n) n in
      let back = append_reversed (append_reversed digits []) [] in
      let few : length back ≤ 19 = omega (
        arith,
        length-append_reversed (append_reversed digits []) [],
        length-append_reversed digits [],
        length-digits_from (suc n) 18 n (omega (arith, h)),
      ) in
      widen back x few
        (parse_bits-window 0 back S.empty t (format_uint n) x (omega (arith, few)) p e)
    where
      widen :
          (s : Text) (x : ℤ)
          → length s ≤ 19
          → found S.empty 1 (length s) x ≡ true
          → in_window 1 19 x ≡ true
      widen s (pos i) few f = ground (arith, few, f, S.has-empty (pos i))
      widen s (negsuc i) few f = ground (arith, few, f, S.has-empty (negsuc i))
  parse-window (negsuc n) t x h p e = absurd (
      false≢true (
        sym (
          parse_bits-digits (pos 1) 0 (append_reversed (b'-' ∷ format_uint (suc n)) []) S.empty t
            (b'-' ∷ format_uint (suc n)) p)
        ∙ signed (format_uint (suc n))))
