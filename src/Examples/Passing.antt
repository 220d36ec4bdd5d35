-- ===== src/Examples/Passing.antt =====
-- A pod on its way through `Predicate` and `Bind`.
use orin_device_system.Common.{
  ℤ_discrete, ◌∷◌, ◌+ℤ◌, ◌-ℤ◌, Text_discrete, codes, [], true, false, none, lookup, has_key, insert,
  delete, wrap64, ◌≡◌, refl, sym, subst, arith,
}
use orin_device_system.Common.Sets.{elem}
use orin_device_system.Common.ListSets.{list_sets, add, contains_all, minus, dedup}
use orin_device_system.Common.TextSets.{text_sets}
use orin_device_system.Topo.{
  difference_from_superset, difference_boards, board_set, orin_set, insert_keys, copy_boards,
  orins_left, add_board, add_orins, add_orin, merge,
}
use orin_device_system.Names.{
  parse_int, parse_digits, scan, in_range, has_prefix, trim_prefix, drop_prefix,
  orin_id_from_resource_name, board_id_from_resource_name, format_int, format_uint, append_reversed,
  digits_from,
}
use orin_device_system.DecimalMap.{parse, parse_bits, new_decimal_map}
use orin_device_system.Allocator.{
  done, allocate, allocator_map, binpack_allocate, best_fit, node_score,
}
use orin_device_system.Manager.{Filtered, pod_allocator, check_node, file_node}
use orin_device_system.Manager.Rounds.{mem}
use orin_device_system.Manager.Parallel.{
  run, turn, advance_nth, advance, parallelize, pieces_from, all_returned,
}
use orin_device_system.Manager.Parallel.Calls.{
  predicate_pool, predicate_parallel, check_piece, name_at,
}
use orin_device_system.Pods.{
  build_request_orin_set, request_containers, request_limits, request_resource,
}
use orin_device_system.Cache.{get_node, new_schedule_cache, add_node}
use orin_device_system.NodeInfo
use orin_device_system.NodeInfo.{
  NodeInfo, reserve, reserve_anew, release, request_on, new_node_info, add_pods, add_capacities,
  add_capacity,
}
use orin_device_system.NodeInfo.Invariant.{IsConsistent}
use orin_device_system.Manager.Bind.{BindState, bind}
use orin_device_system.Manager.Bind.Filtered.{IsReady, BestPlaced, predicate_parallel-bind}
use orin_device_system.Examples.Program.{rack-IsBounded}
use orin_device_system.Examples.Races.{rack_cache_knows}
use orin_device_system.Examples.Caches.{
  rack_cache, only_rack, nodes_sane, small_pod_allocator, bare_rack-IsConsistent,
}
use orin_device_system.Examples.Data.{small_pod, node_name_of_rack}
use orin_device_system.Examples.Binding.{small_pod_new, fetched, retry, server}
use orin_device_system.Examples.Pool.{nodes, second_first}

abbrev answer : Filtered
answer = record {
  nodes = node_name_of_rack ∷ [] ∷ [];
  failed = (codes "m", codes "m not found in node cache") ∷ [];
}

answer_given : predicate_parallel rack_cache nodes small_pod second_first ≡ done answer
unfolding predicate_parallel predicate_pool run turn advance_nth advance parallelize pieces_from
    check_piece check_node file_node name_at get_node allocate binpack_allocate best_fit node_score
    pod_allocator allocator_map ◌-ℤ◌ add_node new_schedule_cache lookup insert delete Text_discrete
    ℤ_discrete difference_from_superset difference_boards board_set orin_set insert_keys
    contains_all elem add minus dedup copy_boards orins_left add_board add_orins add_orin merge
    parse_int parse_digits scan in_range build_request_orin_set request_containers request_limits
    request_resource has_prefix trim_prefix drop_prefix orin_id_from_resource_name NodeInfo.add_pod
    NodeInfo.delete_pod reserve reserve_anew release request_on new_node_info add_pods
    add_capacities add_capacity board_id_from_resource_name parse parse_bits new_decimal_map
    format_int format_uint append_reversed digits_from wrap64 ◌+ℤ◌
answer_given = refl

schedule_done : all_returned (predicate_pool rack_cache nodes small_pod second_first).workers ≡ true
unfolding predicate_pool run turn advance_nth advance parallelize pieces_from all_returned
schedule_done = refl

rack_passed : mem node_name_of_rack answer.nodes ≡ true
unfolding mem
rack_passed = ground arith

rack-IsReady : IsReady rack_cache small_pod node_name_of_rack
rack-IsReady = record {
  books =
      λ ni e. subst IsConsistent (sym (only_rack node_name_of_rack ni e)) bare_rack-IsConsistent;
  unknown = λ ni e.
      subst (λ (n : NodeInfo). has_key Text_discrete small_pod.uid n.pods ≡ false)
        (sym (only_rack node_name_of_rack ni e)) small_pod_new;
  boards = λ ni b e h. rack-IsBounded.boards b (
      subst (λ (n : NodeInfo). has_key ℤ_discrete b n.total ≡ true)
        (only_rack node_name_of_rack ni e) h);
}

predicate_parallel-bind_example :
    (t : BindState (server none)) × (bind
        (server none)
        retry
        small_pod
        rack_cache
        node_name_of_rack
        small_pod.name
        small_pod.namespace
        small_pod.uid
      ≡ done (t, none))
    × BestPlaced rack_cache small_pod rack_cache t.cache node_name_of_rack
predicate_parallel-bind_example =
    predicate_parallel-bind rack_cache small_pod (server none) small_pod small_pod node_name_of_rack
      small_pod.name small_pod.namespace small_pod.uid retry nodes second_first answer
      small_pod_allocator nodes_sane rack-IsReady (rack_cache_knows small_pod) schedule_done
      answer_given (λ e. ground (arith, e)) rack_passed (fetched none) (λ v p. refl) (λ v. refl)
