-- ===== src/DecimalMap.antt =====
-- pkg/scheduler/manager/decimalmap.go: a set of orin IDs as a decimal number of ones and zeros,
-- which the device plugin writes as the capacity of a board and the scheduler reads back.
pub mod Weight
pub mod RoundTrip
pub mod Bounds
use orin_device_system.Common.{
  ℕ, suc, ◌+◌, ◌^◌, ℤ, pos, negsuc, ◌+ℤ◌, ◌-ℤ◌, wrap64, List, [], ◌∷◌, ◌||◌, Text, ltb, ◌==◌,
  if◌then◌else◌, Result, ok, err,
}
use orin_device_system.Common.Sets.{IntSets}
use orin_device_system.Names.{format_int, append_reversed}

pub record DecimalMap : Type 0 where
  pub start_bit : ℤ
  pub src : ℤ
  pub src_str : Text

unfoldable pub new_decimal_map : ℤ → ℤ → DecimalMap
new_decimal_map src start_bit = record { start_bit = start_bit; src = src; src_str = [] }

-- `int64(math.Pow10(e))`. Below 10^0 the float is a fraction; up to 10^18 it is exact and fits. The
-- result of a larger conversion depends on the platform, and is the parameter `huge`.
unfoldable pub int64_pow10 : (ℕ → ℤ) → ℤ → ℤ
int64_pow10 huge (negsuc e) = pos 0
int64_pow10 huge (pos e) = if ltb e 19 then pos (10 ^ e) else huge e

-- the loop of `BuildDecimalMap`; `res` is an int64
unfoldable pub add_powers : (ℕ → ℤ) → ℤ → List ℤ → ℤ → ℤ
add_powers huge start_bit [] res = res
add_powers huge start_bit (n ∷ ns) res =
    add_powers huge start_bit ns (wrap64 (res +ℤ int64_pow10 huge (wrap64 (n -ℤ start_bit))))

module _ ⦃S : IntSets⦄ where
  -- The loop of `Parse`, from the last character to the first; `k` is len - 1 - i.
  unfoldable pub parse_bits : ℤ → ℕ → Text → S.IntSet → Text → Result Text S.IntSet
  parse_bits start_bit k [] res src_str = ok res
  parse_bits start_bit k (c ∷ s) res src_str =
      if c == b'0' || c == b'1'
      then parse_bits start_bit (suc k) s
          (if c == b'1' then S.insert (wrap64 (pos k +ℤ start_bit)) res else res) src_str
      else err src_str

  -- DecimalMap.Parse
  unfoldable pub parse : DecimalMap → DecimalMap × Result Text S.IntSet
  parse dm =
      let src_str = format_int dm.src in
      (
        record dm { src_str = src_str },
        parse_bits dm.start_bit 0 (append_reversed src_str []) S.empty src_str,
      )

  unfoldable pub build_decimal_map : (ℕ → ℤ) → S.IntSet → ℤ → ℤ
  build_decimal_map huge set start_bit = add_powers huge start_bit (S.unsorted_list set) (pos 0)
