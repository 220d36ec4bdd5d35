-- ===== src/Names/RoundTrip.antt =====
-- Printing a number or a resource name, and reading it back.
use orin_device_system.Common.{
  ℕ, suc, zero, ◌<◌, ◌^◌, ℤ, pos, negsuc, some, Bool, true, false, [], ◌∷◌, ◌++◌, Text, ◌≡◌, refl,
  arith, Option-cases, inl, inr,
}
use mathlib.Core.Option
use orin_device_system.Names.{
  has_prefix, drop_prefix, trim_prefix, format_uint, format_int, scan, in_range, parse_digits,
  parse_int, orin_id_from_resource_name, board_id_from_resource_name,
  extend_resouce_type_orin_prefix, extend_resouce_type_board_prefix,
}
use orin_device_system.Names.Decimal.{
  NoSign, scan-format_uint, format_uint-NoSign, format_uint_cons,
}

-- An int of 64 bits.
abbrev pub IsInt64 : ℤ → Type 0
IsInt64 (pos n) = n < 2 ^ 63
IsInt64 (negsuc n) = n < 2 ^ 63

parse_digits-format_uint : (neg : Bool) (n : ℕ) → parse_digits neg (format_uint n) ≡ in_range neg n
unfolding parse_digits
parse_digits-format_uint neg n =
    let (d, rest, e) = format_uint_cons n in ground (arith, scan-format_uint n, e)

parse_int_unsigned :
    (s : Text) (c : ℕ) (rest : Text) → s ≡ c ∷ rest → NoSign s → parse_int s ≡ parse_digits false s
unfolding parse_int
parse_int_unsigned [] c rest e h = ground arith
parse_int_unsigned (d ∷ s) c rest e h = ground arith

-- `ParseInt` undoes `FormatInt` on every int.
pub parse_int-format_int : (z : ℤ) → IsInt64 z → parse_int (format_int z) ≡ some z
unfolding format_int in_range
parse_int-format_int (pos n) h =
    let (d, rest, e) = format_uint_cons n in
    ground (
      arith,
      parse_int_unsigned (format_uint n) d rest e (format_uint-NoSign n),
      parse_digits-format_uint false n,
    )
parse_int-format_int (negsuc n) h =
    unfold parse_int in ground (arith, parse_digits-format_uint true (suc n))

in_range-IsInt64 : (neg : Bool) (n : ℕ) (z : ℤ) → in_range neg n ≡ some z → IsInt64 z
unfolding in_range
in_range-IsInt64 false n (pos m) h = ground arith
in_range-IsInt64 false n (negsuc m) h = ground arith
in_range-IsInt64 true zero (pos m) h = ground arith
in_range-IsInt64 true zero (negsuc m) h = ground arith
in_range-IsInt64 true (suc n) (pos m) h = ground arith
in_range-IsInt64 true (suc n) (negsuc m) h = ground arith

parse_digits-IsInt64 : (neg : Bool) (s : Text) (z : ℤ) → parse_digits neg s ≡ some z → IsInt64 z
unfolding parse_digits
parse_digits-IsInt64 neg [] z h = absurd (Option.none-ne-some z h)
parse_digits-IsInt64 neg (c ∷ s) z h = elim (Option-cases (scan (c ∷ s) 0)) [
  | inl e ↦ absurd (Option.none-ne-some z (rw (e, parse_digits) at h))
  | inr (n, e) ↦ in_range-IsInt64 neg n z (rw (e, parse_digits) at h)
]

-- What `ParseInt` returns is an int of 64 bits: a conversion to `int` loses nothing.
pub parse_int-IsInt64 : (s : Text) (z : ℤ) → parse_int s ≡ some z → IsInt64 z
unfolding parse_int
parse_int-IsInt64 [] z h = absurd (Option.none-ne-some z h)
parse_int-IsInt64 (c ∷ s) z h = ground (
  arith,
  parse_digits-IsInt64 false s z,
  parse_digits-IsInt64 true s z,
  parse_digits-IsInt64 false (c ∷ s) z,
)

pub has_prefix-append : (p s : Text) → has_prefix (p ++ s) p ≡ true
unfolding has_prefix
has_prefix-append [] s = refl
has_prefix-append (c ∷ p) s = ground (arith, has_prefix-append p s)

drop_prefix-append : (p s : Text) → drop_prefix (p ++ s) p ≡ s
unfolding drop_prefix
drop_prefix-append [] s = refl
drop_prefix-append (c ∷ p) s = drop_prefix-append p s

pub trim_prefix-append : (p s : Text) → trim_prefix (p ++ s) p ≡ s
unfolding trim_prefix
trim_prefix-append p s = rw (has_prefix-append p s) (drop_prefix-append p s)

-- The resource name of an orin with an int as its ID has the prefix of orins, and
-- `OrinIDFromResourceName` gives the ID back.
pub orin_id-format_int :
    (z : ℤ)
    → IsInt64 z
    → let name = extend_resouce_type_orin_prefix ++ format_int z in
      (has_prefix name extend_resouce_type_orin_prefix ≡ true)
      × (orin_id_from_resource_name name ≡ some z)
unfolding orin_id_from_resource_name
orin_id-format_int z h = (
  has_prefix-append extend_resouce_type_orin_prefix (format_int z),
  rw (trim_prefix-append extend_resouce_type_orin_prefix (format_int z)) (parse_int-format_int z h),
)

-- The resource name of a board with an int as its ID has the prefix of boards, and
-- `BoardIDFromResourceName` gives the ID back.
pub board_id-format_int :
    (z : ℤ)
    → IsInt64 z
    → let name = extend_resouce_type_board_prefix ++ format_int z in
      (has_prefix name extend_resouce_type_board_prefix ≡ true)
      × (board_id_from_resource_name name ≡ some z)
unfolding board_id_from_resource_name
board_id-format_int z h = (
  has_prefix-append extend_resouce_type_board_prefix (format_int z),
  rw (trim_prefix-append extend_resouce_type_board_prefix (format_int z))
      (parse_int-format_int z h),
)
