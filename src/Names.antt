-- ===== src/Names.antt =====
-- pkg/common/common.go and the head of pkg/scheduler/manager/util.go: the names of the extended
-- resources and annotations, and the decimal numbers in them (`strconv`, `strings`, `%d`).
pub mod Decimal
pub mod RoundTrip
use orin_device_system.Common.{
  ℕ, suc, ◌+◌, ◌-◌, ◌*◌, ◌/◌, ◌%◌, ◌^◌, zero, ℤ, pos, negsuc, List, [], ◌∷◌, ◌++◌, Option, none,
  some, Bool, true, false, ◌||◌, Text, codes, ltb, leb, ◌==◌, if◌then◌else◌,
}
use mathlib.Core.Option

abbrev pub extend_resouce_type_board : Text
extend_resouce_type_board = codes "superedge.io/device-board"

abbrev pub extend_resouce_type_board_prefix : Text
extend_resouce_type_board_prefix = codes "superedge.io/device-board-"

abbrev pub extend_resouce_type_orin_prefix : Text
extend_resouce_type_orin_prefix = codes "superedge.io/device-orin-"

abbrev pub annotation_pod_bind_to_board : Text
annotation_pod_bind_to_board = codes "superedge.io/pod-bind-board"

abbrev pub annotation_pod_bind_orin_policy : Text
annotation_pod_bind_orin_policy = codes "superedge.io/pod-bind-orin-policy"

-- strings.HasPrefix
unfoldable pub has_prefix : Text → Text → Bool
has_prefix s [] = true
has_prefix [] (p ∷ ps) = false
has_prefix (c ∷ s) (p ∷ ps) = if c == p then has_prefix s ps else false

-- s[len(prefix):]
unfoldable pub drop_prefix : Text → Text → Text
drop_prefix s [] = s
drop_prefix [] (p ∷ ps) = []
drop_prefix (c ∷ s) (p ∷ ps) = drop_prefix s ps

-- strings.TrimPrefix
unfoldable pub trim_prefix : Text → Text → Text
trim_prefix s p = if has_prefix s p then drop_prefix s p else s

-- The digits of `n`, the last first; `fuel` bounds their number.
unfoldable pub digits_from : ℕ → ℕ → Text
digits_from zero n = []
digits_from (suc fuel) n =
    let rest = digits_from fuel (n / 10) in
    if ltb n 10 then (b'0' + n) ∷ [] else (b'0' + n % 10) ∷ rest

unfoldable pub append_reversed : Text → Text → Text
append_reversed [] out = out
append_reversed (c ∷ s) out = append_reversed s (c ∷ out)

-- `strconv.FormatUint(n, 10)`; a number has no more digits than its value plus one.
unfoldable pub format_uint : ℕ → Text
format_uint n = append_reversed (digits_from (suc n) n) []

-- `strconv.FormatInt(z, 10)`, and `%d`
unfoldable pub format_int : ℤ → Text
format_int (pos n) = format_uint n
format_int (negsuc n) = b'-' ∷ format_uint (suc n)

-- The number that a text of digits spells behind `n`.
unfoldable pub scan : Text → ℕ → Option ℕ
scan [] n = some n
scan (c ∷ s) n = if ltb c b'0' || ltb b'9' c then none else scan s (n * 10 + (c - b'0'))

-- The range test of `ParseInt` at 64 bits, for the given sign.
unfoldable pub in_range : Bool → ℕ → Option ℤ
in_range false n = if ltb n (2 ^ 63) then some (pos n) else none
in_range true zero = some (pos zero)
in_range true (suc n) = if ltb n (2 ^ 63) then some (negsuc n) else none

unfoldable pub parse_digits : Bool → Text → Option ℤ
parse_digits neg [] = none
parse_digits neg (c ∷ s) = elim (scan (c ∷ s) 0) [ none ↦ none | some n ↦ in_range neg n ]

-- `strconv.ParseInt(s, 10, 0)`, where an int has 64 bits; `none` is a syntax or a range error.
unfoldable pub parse_int : Text → Option ℤ
parse_int [] = none
parse_int (c ∷ s) =
    if c == b'+'
    then parse_digits false s
    else if c == b'-'
    then parse_digits true s
    else parse_digits false (c ∷ s)

unfoldable pub orin_id_from_resource_name : Text → Option ℤ
orin_id_from_resource_name name = parse_int (trim_prefix name extend_resouce_type_orin_prefix)

unfoldable pub board_id_from_resource_name : Text → Option ℤ
board_id_from_resource_name name = parse_int (trim_prefix name extend_resouce_type_board_prefix)
