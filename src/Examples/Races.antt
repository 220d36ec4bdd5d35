-- ===== src/Examples/Races.antt =====
-- Two calls of `Bind` at once, for two pods that both ask for orin 2 of the rack.
use orin_device_system.Common.{
  ◌≢◌, ◌+ℤ◌, ◌-ℤ◌, ℤ_discrete, ◌∷◌, codes, pos, [], true, false, lookup, has_key, Text_discrete,
  Bool, ◌≡◌, refl, arith,
}
use orin_device_system.Common.Sets.{elem}
use orin_device_system.Common.ListSets.{list_sets, add}
use orin_device_system.Common.TextSets.{text_sets}
use orin_device_system.Allocator.{done, allocate}
use orin_device_system.Names.{
  parse_int, parse_digits, scan, in_range, has_prefix, trim_prefix, drop_prefix,
  orin_id_from_resource_name,
}
use orin_device_system.Pods.{
  Pod, add_pod_bind_annotation, build_request_orin_set, request_containers, request_limits,
  request_resource,
}
use orin_device_system.NodeInfo.{new_node_info, add_pods}
use orin_device_system.Cache.{ScheduleCache, new_schedule_cache, add_node}
use orin_device_system.Manager.{pod_allocator}
use orin_device_system.Manager.Race.{choosing, assumed, interleave}
use orin_device_system.Manager.Race.Turns.{call_at}
use orin_device_system.Manager.Race.Sharing.{Racing, Overbooked, interleave-Overbooked}
use orin_device_system.Examples.Caches.{
  bare_rack-IsConsistent, bare_rack-IsSane, rack_cache, rack_cached,
}
use orin_device_system.Examples.Data.{rack_node, small_pod, node_name_of_rack}
use orin_device_system.Examples.Binding.{
  chosen_board, small_pod_chosen, small_pod_new, chosen_proper, chosen-IsInt64,
}

abbrev twin_pod : Pod
twin_pod = record small_pod { name = codes "q"; uid = codes "w" }

twin_chosen :
    allocate
      (pod_allocator twin_pod)
      (new_node_info rack_node []).allocatable
      (build_request_orin_set twin_pod)
    ≡ done chosen_board
unfolding pod_allocator build_request_orin_set
twin_chosen = small_pod_chosen

pub rack_cache_knows : (pod : Pod) → has_key Text_discrete pod.uid rack_cache.pod_maps ≡ false
unfolding new_schedule_cache add_node lookup
rack_cache_knows pod = refl

twin_pod_new : has_key Text_discrete twin_pod.uid (new_node_info rack_node []).pods ≡ false
unfolding lookup new_node_info add_pods
twin_pod_new = refl

twin_other : twin_pod.uid ≢ small_pod.uid
twin_other = ground arith

abbrev twins-Racing : Racing rack_cache node_name_of_rack small_pod twin_pod
twins-Racing = record {
  info = new_node_info rack_node [];
  cached = rack_cached;
  books = bare_rack-IsConsistent;
  sane = bare_rack-IsSane;
  b = pos 1;
  int64 = chosen-IsInt64;
  proper = chosen_proper;
  others = twin_other;
  unknown_p = rack_cache_knows small_pod;
  unknown_q = rack_cache_knows twin_pod;
  new_p = small_pod_new;
  new_q = twin_pod_new;
  score_p = pos 97;
  score_q = pos 97;
  picked_p = small_pod_chosen;
  picked_q = twin_chosen;
}

abbrev orin_asked : Pod → Bool
orin_asked pod = elem (pos 2) (build_request_orin_set pod)

small_pod_asks : orin_asked small_pod ≡ true
unfolding build_request_orin_set request_containers request_limits request_resource
    orin_id_from_resource_name trim_prefix drop_prefix has_prefix parse_int parse_digits scan
    in_range elem add ℤ_discrete ◌+ℤ◌ ◌-ℤ◌
small_pod_asks = refl

twin_pod_asks : orin_asked twin_pod ≡ true
unfolding build_request_orin_set
twin_pod_asks = small_pod_asks

interleave-Overbooked_example :
    (c' : ScheduleCache) × (interleave
        (true ∷ false ∷ true ∷ false ∷ [])
        rack_cache
        (call_at node_name_of_rack small_pod choosing)
        (call_at node_name_of_rack twin_pod choosing)
      ≡ done (
        c',
        call_at node_name_of_rack small_pod (assumed (add_pod_bind_annotation small_pod (pos 1))),
        call_at node_name_of_rack twin_pod (assumed (add_pod_bind_annotation twin_pod (pos 1))),
      ))
    × Overbooked c' node_name_of_rack small_pod twin_pod (pos 1) (pos 2)
interleave-Overbooked_example =
    interleave-Overbooked rack_cache node_name_of_rack small_pod twin_pod twins-Racing (pos 2)
      small_pod_asks twin_pod_asks
