-- ===== src/Names/Decimal.antt =====
-- Printing a number in decimal and reading it back.
use orin_device_system.Common.{
  ℕ, suc, zero, ◌+◌, ◌/◌, ◌%◌, ◌<◌, ◌≤◌, [], ◌∷◌, some, Text, ◌≡◌, arith, All, Bool-cases, refl,
  inl, inr, ltb,
}
use orin_device_system.Names.{digits_from, append_reversed, format_uint, scan}

-- Reading the digits of `n`, and then `out`, is reading `out` behind `n`.
scan-digits_from :
    (fuel n : ℕ) (out : Text)
    → n < fuel
    → scan (append_reversed (digits_from fuel n) out) 0 ≡ scan out n
unfolding scan append_reversed digits_from
scan-digits_from zero n out h = elim h [ ]
scan-digits_from (suc fuel) n out h =
    ground (arith, scan-digits_from fuel (n / 10) ((b'0' + n % 10) ∷ out))

pub scan-format_uint : (n : ℕ) → scan (format_uint n) 0 ≡ some n
unfolding format_uint scan
scan-format_uint n = scan-digits_from (suc n) n [] (omega arith)

-- No byte is below `0`, so none is a sign.
abbrev pub NoSign : Text → Type 0
NoSign = All (λ c. b'0' ≤ c)

digits_from-NoSign : (fuel n : ℕ) → NoSign (digits_from fuel n)
unfolding digits_from
digits_from-NoSign zero n = tt
digits_from-NoSign (suc fuel) n = ground (arith, digits_from-NoSign fuel (n / 10))

append_reversed-NoSign : (s out : Text) → NoSign s → NoSign out → NoSign (append_reversed s out)
unfolding append_reversed
append_reversed-NoSign [] out a b = b
append_reversed-NoSign (c ∷ s) out a b = append_reversed-NoSign s (c ∷ out) a.1 (a.0, b)

append_reversed_cons :
    (s out : Text) (c : ℕ) → (d : ℕ) × (rest : Text) × (append_reversed s (c ∷ out) ≡ d ∷ rest)
unfolding append_reversed
append_reversed_cons [] out c = (c, out, refl)
append_reversed_cons (d ∷ s) out c = append_reversed_cons s (c ∷ out) d

pub format_uint-NoSign : (n : ℕ) → NoSign (format_uint n)
unfolding format_uint
format_uint-NoSign n =
    append_reversed-NoSign (digits_from (suc n) n) [] (digits_from-NoSign (suc n) n) tt

pub format_uint_cons : (n : ℕ) → (d : ℕ) × (rest : Text) × (format_uint n ≡ d ∷ rest)
unfolding format_uint digits_from append_reversed
format_uint_cons n = elim (Bool-cases (ltb n 10)) [
  | inl small ↦ rw small (append_reversed_cons [] [] (b'0' + n))
  | inr large ↦ rw large (append_reversed_cons (digits_from n (n / 10)) [] (b'0' + n % 10))
]
