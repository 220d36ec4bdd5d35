-- ===== src/Examples/Books.antt =====
-- The books of a node at concrete inputs.
use orin_device_system.Common.{
  ℤ_discrete, pos, [], ◌∷◌, none, some, true, false, Text_discrete, insert, delete, has_key, lookup,
  wrap64, ◌+ℤ◌, ◌≡◌, ◌≢◌, refl, arith,
}
use mathlib.Core.Option
use orin_device_system.Common.Sets.{elem}
use orin_device_system.Common.ListSets.{list_sets, add, contains_all, minus, dedup}
use orin_device_system.Topo.{
  difference_from_superset, difference_boards, board_set, orin_set, insert_keys, copy_boards,
  orins_left, add_board, add_orins, add_orin, merge,
}
use orin_device_system.Names.{
  parse_int, parse_digits, scan, in_range, has_prefix, trim_prefix, drop_prefix,
  orin_id_from_resource_name, board_id_from_resource_name, format_int, format_uint, append_reversed,
  digits_from,
}
use orin_device_system.Pods.{
  build_request_orin_set, request_containers, request_limits, request_resource,
}
use orin_device_system.Pods.Annotations.{bind_board}
use orin_device_system.DecimalMap.{parse, parse_bits, new_decimal_map}
use orin_device_system.NodeInfo.{
  add_capacities, add_capacity, NodeInfo, add_pod, delete_pod, reserve, reserve_anew, release,
  request_on,
}
use orin_device_system.NodeInfo.Invariant.{IsConsistent, add_pod-IsConsistent}
use orin_device_system.NodeInfo.Release.{add_pod-Reserved, add_pod-after_failure}
use orin_device_system.NodeInfo.AddAgain.{IsHeld, add_pod-SameBooks}
use orin_device_system.NodeInfo.UndoAdd.{SameBooks, IsNew, delete_pod-add_pod}
use orin_device_system.NodeInfo.Capacity.{Accepted, bare_node}
use orin_device_system.Examples.Data.{rack_node, rack_info, bound_pod, stray_pod}

pub rack_info-IsConsistent : IsConsistent rack_info
unfolding lookup ℤ_discrete
rack_info-IsConsistent = record {
  requested_distinct = tt;
  allocatable_distinct = (refl, (refl, tt));
  covered = record { boards = λ b e. ground (arith, e); orins = λ b o e. ground (arith, e) };
  same_boards = λ b. refl;
  apart = λ b e. ground (arith, e);
  left = λ b o. ground arith;
}

bound_pod_board : bind_board bound_pod ≡ some (pos 1)
unfolding bind_board lookup Text_discrete parse_int parse_digits scan in_range
bound_pod_board = refl

stray_pod_board : bind_board stray_pod ≡ some (pos 7)
unfolding bind_board lookup Text_discrete parse_int parse_digits scan in_range
stray_pod_board = refl

bound_pod_new : has_key Text_discrete bound_pod.uid rack_info.pods ≡ false
unfolding lookup
bound_pod_new = refl

bound_pod_accepted : (add_pod rack_info bound_pod).1 ≡ none
unfolding lookup insert delete Text_discrete ℤ_discrete difference_from_superset difference_boards
    board_set orin_set insert_keys contains_all elem add minus dedup copy_boards orins_left
    add_board add_orins add_orin merge parse_int parse_digits scan in_range build_request_orin_set
    request_containers request_limits request_resource has_prefix trim_prefix drop_prefix
    orin_id_from_resource_name add_pod delete_pod reserve reserve_anew release request_on
bound_pod_accepted = refl

stray_pod_refused : (add_pod rack_info stray_pod).1 ≢ none
unfolding lookup insert delete Text_discrete ℤ_discrete difference_from_superset difference_boards
    board_set orin_set insert_keys contains_all elem add minus dedup copy_boards orins_left
    add_board add_orins add_orin merge parse_int parse_digits scan in_range build_request_orin_set
    request_containers request_limits request_resource has_prefix trim_prefix drop_prefix
    orin_id_from_resource_name add_pod delete_pod reserve reserve_anew release request_on
stray_pod_refused h = Option.some-ne-none _ h

abbrev rack_with_pod : NodeInfo
rack_with_pod = (add_pod rack_info bound_pod).0

bound_pod_there : has_key Text_discrete bound_pod.uid rack_with_pod.pods ≡ true
unfolding lookup insert delete Text_discrete ℤ_discrete difference_from_superset difference_boards
    board_set orin_set insert_keys contains_all elem add minus dedup copy_boards orins_left
    add_board add_orins add_orin merge parse_int parse_digits scan in_range build_request_orin_set
    request_containers request_limits request_resource has_prefix trim_prefix drop_prefix
    orin_id_from_resource_name add_pod delete_pod reserve reserve_anew release request_on
bound_pod_there = refl

bound_pod_released : (delete_pod rack_with_pod bound_pod).1 ≡ none
unfolding lookup insert delete Text_discrete ℤ_discrete difference_from_superset difference_boards
    board_set orin_set insert_keys contains_all elem add minus dedup copy_boards orins_left
    add_board add_orins add_orin merge parse_int parse_digits scan in_range build_request_orin_set
    request_containers request_limits request_resource has_prefix trim_prefix drop_prefix
    orin_id_from_resource_name add_pod delete_pod reserve reserve_anew release request_on
bound_pod_released = refl

rack_with_pod-IsConsistent : IsConsistent rack_with_pod
rack_with_pod-IsConsistent =
    add_pod-IsConsistent rack_info bound_pod rack_info-IsConsistent bound_pod_accepted

bound_pod-IsNew : IsNew rack_info bound_pod (pos 1)
unfolding lookup
bound_pod-IsNew = record {
  bound = bound_pod_board;
  unknown = bound_pod_new;
  unclaimed = λ j o e. refl;
}

delete_pod-add_pod_example :
    ((delete_pod rack_with_pod bound_pod).1 ≡ none)
    × SameBooks rack_info (delete_pod rack_with_pod bound_pod).0
delete_pod-add_pod_example =
    delete_pod-add_pod rack_info bound_pod (pos 1) rack_info-IsConsistent bound_pod-IsNew
      bound_pod_accepted

bound_pod-IsHeld : IsHeld rack_with_pod bound_pod (pos 1)
unfolding lookup insert delete Text_discrete ℤ_discrete difference_from_superset difference_boards
    board_set orin_set insert_keys contains_all elem add minus dedup copy_boards orins_left
    add_board add_orins add_orin merge parse_int parse_digits scan in_range build_request_orin_set
    request_containers request_limits request_resource has_prefix trim_prefix drop_prefix
    orin_id_from_resource_name add_pod delete_pod reserve reserve_anew release request_on
bound_pod-IsHeld = record {
  bound = bound_pod_board;
  recorded = refl;
  board_there = refl;
  requested = λ j o e. ground (
    arith,
    (add_pod-Reserved rack_info bound_pod (pos 1) bound_pod_board bound_pod_new
          bound_pod_accepted).taken
        j o,
    e,
  );
}

add_pod-SameBooks_example :
    ((add_pod rack_with_pod bound_pod).1 ≡ none)
    × SameBooks rack_with_pod (add_pod rack_with_pod bound_pod).0
add_pod-SameBooks_example =
    add_pod-SameBooks rack_with_pod bound_pod (pos 1) rack_with_pod-IsConsistent bound_pod-IsHeld

stray_pod_new : has_key Text_discrete stray_pod.uid rack_info.pods ≡ false
unfolding lookup
stray_pod_new = refl

add_pod-after_failure_example : (add_pod (add_pod rack_info stray_pod).0 bound_pod).1 ≢ none
add_pod-after_failure_example =
    add_pod-after_failure rack_info stray_pod bound_pod (pos 7) (pos 1) tt stray_pod_board
      stray_pod_new stray_pod_refused bound_pod_board bound_pod_new

bound_pod_fits : Accepted (bare_node rack_node) (bound_pod ∷ [])
unfolding lookup insert delete Text_discrete ℤ_discrete difference_from_superset difference_boards
    board_set orin_set insert_keys contains_all elem add minus dedup copy_boards orins_left
    add_board add_orins add_orin merge parse_int parse_digits scan in_range build_request_orin_set
    request_containers request_limits request_resource has_prefix trim_prefix drop_prefix
    orin_id_from_resource_name add_pod delete_pod reserve reserve_anew release request_on
    add_capacities add_capacity board_id_from_resource_name parse parse_bits new_decimal_map
    format_int format_uint append_reversed digits_from wrap64 ◌+ℤ◌
bound_pod_fits = (refl, tt)
