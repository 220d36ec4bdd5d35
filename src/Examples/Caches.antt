-- ===== src/Examples/Caches.antt =====
-- The cache and the filter at concrete inputs.
use orin_device_system.Common.{
  ◌<◌, subst, ℤ, ℤ_discrete, pos, List, [], ◌∷◌, none, some, true, false, Text, Text_discrete,
  codes, insert, delete, has_key, lookup, wrap64, ◌+ℤ◌, ◌≡◌, ◌≢◌, refl, sym, arith,
}
use orin_device_system.Common.Sets.{elem}
use orin_device_system.Common.ListSets.{list_sets, add, contains_all, minus, dedup}
use orin_device_system.Common.TextSets.{text_sets}
use orin_device_system.Topo.{
  difference_from_superset, difference_boards, board_set, orin_set, insert_keys, copy_boards,
  orins_left, add_board, add_orins, add_orin, merge,
}
use orin_device_system.Names.{
  parse_int, parse_digits, scan, in_range, has_prefix, trim_prefix, drop_prefix,
  orin_id_from_resource_name, board_id_from_resource_name, format_int, format_uint, append_reversed,
  digits_from,
}
use orin_device_system.DecimalMap.{parse, parse_bits, new_decimal_map}
use orin_device_system.Allocator.{allocator_map, binpack_allocator, done, panic, max_int}
use orin_device_system.Allocator.BestFit.{IsSane, free}
use orin_device_system.Pods.{
  build_request_orin_set, request_containers, request_limits, request_resource,
}
use orin_device_system.NodeInfo
use orin_device_system.NodeInfo.{
  NodeInfo, reserve, reserve_anew, release, request_on, new_node_info, add_pods, add_capacities,
  add_capacity,
}
use orin_device_system.NodeInfo.Invariant.{IsConsistent}
use orin_device_system.NodeInfo.Capacity.{new_node_info-IsConsistent}
use orin_device_system.Pods.Annotations.{bind_board}
use orin_device_system.NodeInfo.UndoAdd.{SameBooks, IsNew}
use orin_device_system.Cache.{
  ScheduleCache, new_schedule_cache, add_node, assume_pod, assumed_pod, forget_pod, get_node,
}
use orin_device_system.Cache.Invariant.{AllConsistent}
use orin_device_system.Cache.Reachable.{
  Reachable, start, next, node_added, pod_assumed, Reachable-AllConsistent,
}
use orin_device_system.Cache.Effects.{knows, Holds, assume_pod-Holds, forget_pod-assume_pod}
use orin_device_system.Manager.{Filtered, pod_allocator, predicate}
use orin_device_system.Manager.Rounds.{mem, NodesSane}
use orin_device_system.Manager.Filter.{IsSchedule, Answer, predicate-Answer, predicate-panic}
use orin_device_system.Examples.Data.{
  rack_node, bound_pod, small_pod, spread_pod, node_name_of_rack,
}

abbrev pub rack_cache : ScheduleCache
rack_cache = (add_node new_schedule_cache rack_node []).0

pub rack_cached : get_node rack_cache node_name_of_rack ≡ some (new_node_info rack_node [])
unfolding get_node new_schedule_cache add_node lookup insert Text_discrete
rack_cached = refl

bound_pod_assumed : (assume_pod rack_cache bound_pod node_name_of_rack).1 ≡ none
unfolding assume_pod assumed_pod add_node new_schedule_cache lookup insert delete Text_discrete
    ℤ_discrete difference_from_superset difference_boards board_set orin_set insert_keys
    contains_all elem add minus dedup copy_boards orins_left add_board add_orins add_orin merge
    parse_int parse_digits scan in_range build_request_orin_set request_containers request_limits
    request_resource has_prefix trim_prefix drop_prefix orin_id_from_resource_name NodeInfo.add_pod
    NodeInfo.delete_pod reserve reserve_anew release request_on new_node_info add_pods
    add_capacities add_capacity board_id_from_resource_name parse parse_bits new_decimal_map
    format_int format_uint append_reversed digits_from wrap64 ◌+ℤ◌
bound_pod_assumed = refl

pub rack-Reachable : Reachable rack_cache
rack-Reachable = next start (node_added rack_node [] tt)

Reachable-AllConsistent_example :
    AllConsistent (assume_pod rack_cache bound_pod node_name_of_rack).0.node_cache
Reachable-AllConsistent_example =
    Reachable-AllConsistent
      (next rack-Reachable (pod_assumed bound_pod node_name_of_rack bound_pod_assumed))

bound_pod_board : bind_board bound_pod ≡ some (pos 1)
unfolding bind_board lookup Text_discrete parse_int parse_digits scan in_range
bound_pod_board = refl

bound_pod_new : has_key Text_discrete bound_pod.uid (new_node_info rack_node []).pods ≡ false
unfolding new_node_info add_pods lookup
bound_pod_new = refl

pub bound_pod_held :
    Holds
      (assume_pod rack_cache bound_pod node_name_of_rack).0
      node_name_of_rack
      (new_node_info rack_node [])
      bound_pod
      (pos 1)
bound_pod_held =
    assume_pod-Holds rack_cache bound_pod node_name_of_rack (new_node_info rack_node []) (pos 1)
      rack_cached bound_pod_board bound_pod_new bound_pod_assumed

pub bare_rack-IsConsistent : IsConsistent (new_node_info rack_node [])
bare_rack-IsConsistent = new_node_info-IsConsistent rack_node [] tt

bound_pod-IsNew : IsNew (new_node_info rack_node []) bound_pod (pos 1)
unfolding new_node_info add_pods lookup
bound_pod-IsNew = record {
  bound = bound_pod_board;
  unknown = bound_pod_new;
  unclaimed = λ j o e. refl;
}

abbrev forgotten_cache : ScheduleCache
forgotten_cache =
    (forget_pod (assume_pod rack_cache bound_pod node_name_of_rack).0 bound_pod node_name_of_rack).0

forget_pod-assume_pod_example :
    (ni' : NodeInfo) × (get_node forgotten_cache node_name_of_rack ≡ some ni')
    × SameBooks (new_node_info rack_node []) ni'
    × (knows forgotten_cache bound_pod.uid ≡ true)
    × ((assume_pod forgotten_cache bound_pod node_name_of_rack).1 ≢ none)
forget_pod-assume_pod_example =
    forget_pod-assume_pod rack_cache bound_pod node_name_of_rack (new_node_info rack_node [])
      (pos 1) rack_cached bare_rack-IsConsistent bound_pod-IsNew bound_pod_assumed

abbrev names : List Text
names = node_name_of_rack ∷ codes "m" ∷ []

-- The second worker is the first to finish.
abbrev reversed_names : List Text
reversed_names = codes "m" ∷ node_name_of_rack ∷ []

in_reverse : IsSchedule rack_cache names reversed_names small_pod
unfolding mem
in_reverse = record { same_nodes = λ x. ground arith; same_length = refl }

in_reverse_too : IsSchedule rack_cache names reversed_names spread_pod
unfolding mem
in_reverse_too = record { same_nodes = λ x. ground arith; same_length = refl }

pub small_pod_allocator : pod_allocator small_pod ≡ some binpack_allocator
unfolding pod_allocator allocator_map lookup Text_discrete
small_pod_allocator = refl

spread_pod_allocator : pod_allocator spread_pod ≡ none
unfolding pod_allocator allocator_map lookup Text_discrete
spread_pod_allocator = refl

rack_small : (b : ℤ) → free (new_node_info rack_node []).allocatable b < max_int
unfolding lookup orin_set insert_keys dedup add elem insert delete Text_discrete ℤ_discrete
    difference_from_superset difference_boards board_set contains_all minus copy_boards orins_left
    add_board add_orins add_orin merge parse_int parse_digits scan in_range build_request_orin_set
    request_containers request_limits request_resource has_prefix trim_prefix drop_prefix
    orin_id_from_resource_name NodeInfo.add_pod NodeInfo.delete_pod reserve reserve_anew release
    request_on new_node_info add_pods add_capacities add_capacity board_id_from_resource_name parse
    parse_bits new_decimal_map format_int format_uint append_reversed digits_from wrap64 ◌+ℤ◌
rack_small b = ground arith

pub bare_rack-IsSane : IsSane (new_node_info rack_node []).allocatable
unfolding lookup insert delete Text_discrete ℤ_discrete difference_from_superset difference_boards
    board_set orin_set insert_keys contains_all elem add minus dedup copy_boards orins_left
    add_board add_orins add_orin merge parse_int parse_digits scan in_range build_request_orin_set
    request_containers request_limits request_resource has_prefix trim_prefix drop_prefix
    orin_id_from_resource_name NodeInfo.add_pod NodeInfo.delete_pod reserve reserve_anew release
    request_on new_node_info add_pods add_capacities add_capacity board_id_from_resource_name parse
    parse_bits new_decimal_map format_int format_uint append_reversed digits_from wrap64 ◌+ℤ◌
bare_rack-IsSane = record { distinct = (refl, (refl, tt)); no_sentinel = refl; small = rack_small }

pub only_rack :
    (name : Text) (ni : NodeInfo)
    → get_node rack_cache name ≡ some ni
    → ni ≡ new_node_info rack_node []
unfolding get_node new_schedule_cache add_node lookup insert
only_rack name ni e = ground (arith, e)

pub nodes_sane : NodesSane rack_cache (build_request_orin_set small_pod)
nodes_sane name ni e =
    subst (λ n. IsSane n.allocatable) (sym (only_rack name ni e)) bare_rack-IsSane

predicate-Answer_example :
    (r : Filtered) × (predicate rack_cache names reversed_names small_pod ≡ done r)
    × Answer rack_cache names reversed_names small_pod r
predicate-Answer_example =
    predicate-Answer rack_cache names reversed_names small_pod small_pod_allocator nodes_sane
      in_reverse

asked_for : mem node_name_of_rack names ≡ true
unfolding mem Text_discrete
asked_for = refl

predicate-panic_example : predicate rack_cache names reversed_names spread_pod ≡ panic
predicate-panic_example =
    predicate-panic rack_cache names reversed_names spread_pod node_name_of_rack
      (new_node_info rack_node []) spread_pod_allocator in_reverse_too asked_for rack_cached

abbrev scores : List ℤ
scores = pos 1 ∷ pos 2 ∷ pos 3 ∷ []
