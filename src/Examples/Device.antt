-- ===== src/Examples/Device.antt =====
-- Topologies, names, decimal maps and the allocator at concrete inputs.
use orin_device_system.Common.{
  ℕ, ◌<◌, ℤ, ℤ_discrete, pos, negsuc, List, [], ◌∷◌, some, true, ◌&&◌, not, has_key, insert, lookup,
  ok, is_ok, ◌≡◌, ◌↔◌, ◌⊎◌, refl, arith,
}
use orin_device_system.Common.Sets.{elem}
use orin_device_system.Common.ListSets.{list_sets, add, contains_all, minus, dedup}
use orin_device_system.Topo.{
  BoardDetails, difference_from_superset, difference_boards, equal, board_set, orin_set,
  insert_keys, copy_boards, orins_left, add_board, add_orins, add_orin, merge,
}
use orin_device_system.Topo.Views.{has_orin}
use orin_device_system.Topo.Difference.{Covers, difference-has_orin, difference-Covers_iff}
use orin_device_system.Topo.Equality.{SameTopology, equal-SameTopology_iff}
use orin_device_system.Names.{parse_int, format_int}
use orin_device_system.Names.RoundTrip.{parse_int-format_int}
use orin_device_system.DecimalMap.{new_decimal_map, build_decimal_map, parse}
use orin_device_system.DecimalMap.RoundTrip.{parse-build_decimal_map}
use orin_device_system.DecimalMap.Weight.{InWindow}
use orin_device_system.Allocator.{binpack_allocate, max_int}
use orin_device_system.Allocator.BestFit.{IsSane, NotFound, Found, free, binpack_allocate-best}
use orin_device_system.Topo.Forget.{GoMap, subtract_both, subtract_both_comm}
use mathlib.Core.Quot.{Quot}
use orin_device_system.Examples.Data.{rack, one_orin}

abbrev taken : BoardDetails
taken = (pos 0, one_orin (pos 0)) ∷ []

taken_free : is_ok (difference_from_superset rack taken) ≡ true
unfolding difference_from_superset difference_boards board_set orin_set insert_keys contains_all
    elem add lookup ℤ_discrete minus dedup copy_boards orins_left add_board add_orins add_orin merge
taken_free = refl

difference-Covers_iff_example :
    (is_ok (difference_from_superset rack taken) ≡ true) ↔ Covers rack taken
unfolding lookup
difference-Covers_iff_example = difference-Covers_iff rack taken (refl, tt)

abbrev rack_left : BoardDetails
rack_left = (pos 1, one_orin (pos 1)) ∷ (pos 0, (pos 1, record { board_id = pos 0 }) ∷ []) ∷ []

difference-has_orin_example :
    ((b : ℤ) → has_key ℤ_discrete b rack_left ≡ has_key ℤ_discrete b rack)
    × ((b o : ℤ) → has_orin rack_left b o ≡ (has_orin rack b o && not (has_orin taken b o)))
unfolding lookup difference_from_superset difference_boards board_set orin_set insert_keys
    contains_all elem add ℤ_discrete minus dedup copy_boards orins_left add_board add_orins add_orin
    merge insert
difference-has_orin_example = difference-has_orin rack taken {d = rack_left} (refl, tt) refl

equal-SameTopology_iff_example : (equal rack taken ≡ true) ↔ SameTopology rack taken
unfolding lookup ℤ_discrete
equal-SameTopology_iff_example = equal-SameTopology_iff rack taken (refl, (refl, tt))

parse_int-format_int_example : parse_int (format_int (negsuc 41)) ≡ some (negsuc 41)
parse_int-format_int_example = parse_int-format_int (negsuc 41) (omega arith)

abbrev orins : List ℤ
orins = pos 1 ∷ pos 3 ∷ pos 4 ∷ []

abbrev no_power : ℕ → ℤ
no_power e = pos 0

orins-InWindow : (x : ℤ) → elem x orins ≡ true → InWindow 1 19 x
unfolding elem
orins-InWindow (pos i) h = ground arith
orins-InWindow (negsuc i) h = ground arith

parse-build_decimal_map_example :
    (t : List ℤ) × ((parse (new_decimal_map (build_decimal_map no_power orins (pos 1)) (pos 1))).1
      ≡ ok t)
    × ((x : ℤ) → elem x t ≡ elem x orins)
parse-build_decimal_map_example =
    parse-build_decimal_map no_power 1 orins (omega arith) orins-InWindow

abbrev two : List ℤ
two = pos 2 ∷ []

rack_small : (b : ℤ) → free rack b < max_int
unfolding lookup orin_set insert_keys dedup add elem
rack_small b = ground arith

rack-IsSane : IsSane rack
unfolding lookup ℤ_discrete
rack-IsSane = record { distinct = (refl, (refl, tt)); no_sentinel = refl; small = rack_small }

binpack_allocate-best_example :
    NotFound rack two (binpack_allocate rack two) ⊎ Found rack two (binpack_allocate rack two)
binpack_allocate-best_example = binpack_allocate-best rack two rack-IsSane

abbrev rack_map : GoMap
unfolding lookup ℤ_discrete
rack_map = (rack, (refl, (refl, tt)))

abbrev taken_map : GoMap
unfolding lookup
taken_map = (taken, (refl, tt))

-- Orin 2 of board 1.
abbrev other_map : GoMap
unfolding lookup
other_map = ((pos 1, one_orin (pos 1)) ∷ [], (refl, tt))

subtract_both_comm_example :
    subtract_both (Quot.mk rack_map) (Quot.mk taken_map) (Quot.mk other_map)
    ≡ subtract_both (Quot.mk rack_map) (Quot.mk other_map) (Quot.mk taken_map)
subtract_both_comm_example =
    subtract_both_comm (Quot.mk rack_map) (Quot.mk taken_map) (Quot.mk other_map)
