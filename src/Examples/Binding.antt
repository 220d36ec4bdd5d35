-- ===== src/Examples/Binding.antt =====
-- `Bind` at concrete inputs, with an API server that holds one pod.
use orin_device_system.Common.{
  ℕ, ℤ_discrete, ◌-ℤ◌, pos, [], Option, none, some, Bool, true, false, Text_discrete, insert,
  delete, has_key, lookup, ok, wrap64, ◌+ℤ◌, ◌⊎◌, zero, suc, ◌≡◌, ◌≢◌, refl, arith,
}
use orin_device_system.Common.Sets.{elem}
use orin_device_system.Common.ListSets.{list_sets, add, contains_all, minus, dedup}
use orin_device_system.Common.TextSets.{text_sets}
use orin_device_system.Topo.{
  difference_from_superset, difference_boards, board_set, orin_set, insert_keys, copy_boards,
  orins_left, add_board, add_orins, add_orin, merge,
}
use orin_device_system.Names.{
  parse_int, parse_digits, scan, in_range, has_prefix, trim_prefix, drop_prefix,
  orin_id_from_resource_name, board_id_from_resource_name, format_int, format_uint, append_reversed,
  digits_from,
}
use orin_device_system.DecimalMap.{parse, parse_bits, new_decimal_map}
use orin_device_system.Allocator.{
  board_id_not_fount, allocator_map, allocate, binpack_allocate, best_fit, node_score,
  AllocatorResult, Outcome, done, panic,
}
use orin_device_system.Pods.{
  Pod, board_annotation, add_pod_bind_annotation, build_request_orin_set, request_containers,
  request_limits, request_resource,
}
use orin_device_system.NodeInfo
use orin_device_system.NodeInfo.{
  NodeInfo, reserve, reserve_anew, release, request_on, new_node_info, add_pods, add_capacities,
  add_capacity,
}
use orin_device_system.Cache.{ScheduleCache, new_schedule_cache, add_node, assume_pod, assumed_pod}
use orin_device_system.Cache.Effects.{Holds}
use orin_device_system.Manager.{pod_allocator}
use orin_device_system.Names.RoundTrip.{IsInt64}
use orin_device_system.Examples.Caches.{rack_cache, rack_cached}
use orin_device_system.Manager.Bind.{
  Api, BindError, Retry, BindState, bind, get_pod_from_apiserver, get_pod_first,
}
use orin_device_system.Manager.Bind.Known.{Refused, bind-Refused}
use orin_device_system.Manager.Bind.Attempt.{Assumes, bind-leaks}
use orin_device_system.Examples.Data.{rack_node, small_pod, node_name_of_rack}

-- `retry.Do` as a loop.
retry_loop : {St E : Type 0} → ℕ → (St → Outcome (St × Option E)) → St → Outcome (St × Bool)
retry_loop zero f s = done (s, false)
retry_loop (suc n) f s = elim (f s) [
  | panic ↦ panic
  | done (t, none) ↦ done (t, true)
  | done (t, some e) ↦ retry_loop n f t
]

abbrev pub retry : Retry
unfolding retry_loop
retry = record {
  retry_do = retry_loop;
  retry_panic = λ n f s h. rw (h, retry_loop) refl;
  retry_success = λ n f s h. rw (h, retry_loop) refl;
  retry_last = λ f s h. rw (h, retry_loop) refl;
  retry_again = λ n f s h. rw (h, retry_loop) refl;
}

-- A server whose update answers as `answer` says.
abbrev pub server : Option (Unit {0}) → Api
server answer = record {
  World = Pod;
  ApiError = Unit {0};
  get_pod = λ w name namespace. (w, ok w);
  update_pod = λ w pod. (w, answer);
  bind_pod = λ w namespace name uid node. (w, none);
}

abbrev pub chosen_board : AllocatorResult
chosen_board = record { score = pos 97; board_id = pos 1 }

pub small_pod_chosen :
    allocate
      (pod_allocator small_pod)
      (new_node_info rack_node []).allocatable
      (build_request_orin_set small_pod)
    ≡ done chosen_board
unfolding allocate binpack_allocate best_fit node_score pod_allocator allocator_map ◌-ℤ◌ assume_pod
    assumed_pod add_node new_schedule_cache lookup insert delete Text_discrete ℤ_discrete
    difference_from_superset difference_boards board_set orin_set insert_keys contains_all elem add
    minus dedup copy_boards orins_left add_board add_orins add_orin merge parse_int parse_digits
    scan in_range build_request_orin_set request_containers request_limits request_resource
    has_prefix trim_prefix drop_prefix orin_id_from_resource_name NodeInfo.add_pod
    NodeInfo.delete_pod reserve reserve_anew release request_on new_node_info add_pods
    add_capacities add_capacity board_id_from_resource_name parse parse_bits new_decimal_map
    format_int format_uint append_reversed digits_from wrap64 ◌+ℤ◌
small_pod_chosen = refl

pub rack_score :
    (binpack_allocate
      (new_node_info rack_node []).allocatable
      (build_request_orin_set small_pod)).score
    ≡ pos 97
unfolding allocate binpack_allocate best_fit node_score pod_allocator allocator_map ◌-ℤ◌ assume_pod
    assumed_pod add_node new_schedule_cache lookup insert delete Text_discrete ℤ_discrete
    difference_from_superset difference_boards board_set orin_set insert_keys contains_all elem add
    minus dedup copy_boards orins_left add_board add_orins add_orin merge parse_int parse_digits
    scan in_range build_request_orin_set request_containers request_limits request_resource
    has_prefix trim_prefix drop_prefix orin_id_from_resource_name NodeInfo.add_pod
    NodeInfo.delete_pod reserve reserve_anew release request_on new_node_info add_pods
    add_capacities add_capacity board_id_from_resource_name parse parse_bits new_decimal_map
    format_int format_uint append_reversed digits_from wrap64 ◌+ℤ◌
rack_score = refl

small_pod_assumed :
    (assume_pod rack_cache (add_pod_bind_annotation small_pod (pos 1)) node_name_of_rack).1 ≡ none
unfolding add_pod_bind_annotation assume_pod assumed_pod add_node new_schedule_cache lookup insert
    delete Text_discrete ℤ_discrete difference_from_superset difference_boards board_set orin_set
    insert_keys contains_all elem add minus dedup copy_boards orins_left add_board add_orins
    add_orin merge parse_int parse_digits scan in_range build_request_orin_set request_containers
    request_limits request_resource has_prefix trim_prefix drop_prefix orin_id_from_resource_name
    NodeInfo.add_pod NodeInfo.delete_pod reserve reserve_anew release request_on new_node_info
    add_pods add_capacities add_capacity board_id_from_resource_name parse parse_bits
    new_decimal_map format_int format_uint append_reversed digits_from wrap64 ◌+ℤ◌
small_pod_assumed = refl

pub small_pod_new : has_key Text_discrete small_pod.uid (new_node_info rack_node []).pods ≡ false
unfolding new_node_info add_pods lookup
small_pod_new = refl

pub fetched :
    (answer : Option (Unit {0}))
    → get_pod_from_apiserver
        (server answer)
        small_pod
        small_pod.name
        small_pod.namespace
        small_pod.uid
      ≡ (small_pod, ok small_pod)
unfolding get_pod_from_apiserver get_pod_first Text_discrete
fetched answer = refl

pub chosen_proper : chosen_board.board_id ≢ board_id_not_fount
chosen_proper e = ground (arith, e)

pub chosen-IsInt64 : IsInt64 chosen_board.board_id
chosen-IsInt64 = omega arith

abbrev way :
    (answer : Option (Unit {0}))
    → Assumes
        (server answer)
        small_pod
        rack_cache
        node_name_of_rack
        small_pod.name
        small_pod.namespace
        small_pod.uid
way answer = record {
  pod = small_pod;
  world = small_pod;
  fetched = fetched answer;
  info = new_node_info rack_node [];
  cached = rack_cached;
  unknown = small_pod_new;
  res = chosen_board;
  chosen = small_pod_chosen;
  proper = chosen_proper;
  int64 = omega arith;
  assumed = small_pod_assumed;
}

abbrev held_cache : ScheduleCache
held_cache = (assume_pod rack_cache (add_pod_bind_annotation small_pod (pos 1)) node_name_of_rack).0

small_pod_bare : board_annotation small_pod ≡ none
unfolding lookup
small_pod_bare = refl

bind-leaks_example :
    (bind
        (server (some tt))
        retry
        small_pod
        rack_cache
        node_name_of_rack
        small_pod.name
        small_pod.namespace
        small_pod.uid
      ≡ panic)
    ⊎ ((t : BindState (server (some tt))) × (why : BindError (Unit {0})) × (bind
            (server (some tt))
            retry
            small_pod
            rack_cache
            node_name_of_rack
            small_pod.name
            small_pod.namespace
            small_pod.uid
          ≡ done (t, some why))
        × Holds t.cache node_name_of_rack
            (new_node_info rack_node [])
            (add_pod_bind_annotation small_pod (pos 1))
            (pos 1))
bind-leaks_example =
    bind-leaks (server (some tt)) small_pod rack_cache node_name_of_rack small_pod.name
      small_pod.namespace small_pod.uid retry (way (some tt)) tt small_pod_bare refl

small_pod_known : has_key Text_discrete small_pod.uid held_cache.pod_maps ≡ true
unfolding add_pod_bind_annotation assume_pod assumed_pod add_node new_schedule_cache lookup insert
    delete Text_discrete ℤ_discrete difference_from_superset difference_boards board_set orin_set
    insert_keys contains_all elem add minus dedup copy_boards orins_left add_board add_orins
    add_orin merge parse_int parse_digits scan in_range build_request_orin_set request_containers
    request_limits request_resource has_prefix trim_prefix drop_prefix orin_id_from_resource_name
    NodeInfo.add_pod NodeInfo.delete_pod reserve reserve_anew release request_on new_node_info
    add_pods add_capacities add_capacity board_id_from_resource_name parse parse_bits
    new_decimal_map format_int format_uint append_reversed digits_from wrap64 ◌+ℤ◌
small_pod_known = refl

bind-Refused_example : Refused (server none) held_cache (
    bind
      (server none)
      retry
      small_pod
      held_cache
      node_name_of_rack
      small_pod.name
      small_pod.namespace
      small_pod.uid)
bind-Refused_example =
    bind-Refused (server none) node_name_of_rack small_pod.name small_pod.namespace small_pod.uid
      retry small_pod held_cache small_pod_known
