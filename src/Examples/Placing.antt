-- ===== src/Examples/Placing.antt =====
-- Placements that succeed, at concrete inputs.
use orin_device_system.Common.{
  ◌∷◌, map, List, ℤ, subst, sym, arith, codes, pos, [], none, false, Text_discrete, has_key, lookup,
  ◌≡◌, refl,
}
use orin_device_system.Common.ListSets.{list_sets}
use orin_device_system.Common.TextSets.{text_sets}
use orin_device_system.Allocator.{done, binpack_allocate}
use orin_device_system.Pods.{build_request_orin_set, add_pod_bind_annotation}
use orin_device_system.NodeInfo
use orin_device_system.NodeInfo.{
  NodeInfo, reserve, reserve_anew, release, request_on, new_node_info, add_pods, add_capacities,
  add_capacity,
}
use orin_device_system.Cache.{new_schedule_cache, add_node}
use orin_device_system.Manager.{pod_allocator}
use orin_device_system.Manager.Choice.{allocate-IsNew}
use orin_device_system.Manager.{priority}
use orin_device_system.Manager.Scores.{IsSmall, Normalized}
use orin_device_system.Manager.Priorities.{raw_score, ScoresSmall, priority-Normalized}
use orin_device_system.Examples.Caches.{only_rack, small_pod_allocator}
use orin_device_system.NodeInfo.Invariant.{IsConsistent}
use orin_device_system.NodeInfo.Ownership.{IsOwned}
use orin_device_system.Manager.Sharing.{
  NodeReachable, node_started, node_changed, pod_placed, NodeReachable-IsOwned,
}
use orin_device_system.Manager.Bind.Success.{Placeable}
use orin_device_system.NodeInfo.UndoAdd.{IsNew}
use orin_device_system.Examples.Caches.{
  bare_rack-IsConsistent, bare_rack-IsSane, rack_cache, rack_cached,
}
use orin_device_system.Examples.Data.{rack_node, small_pod, node_name_of_rack}
use orin_device_system.Examples.Binding.{
  rack_score, server, chosen_board, small_pod_chosen, small_pod_new, fetched, chosen_proper,
  chosen-IsInt64,
}

allocate-IsNew_example :
    IsNew (new_node_info rack_node []) (add_pod_bind_annotation small_pod (pos 1)) (pos 1)
    × ((NodeInfo.add_pod (new_node_info rack_node []) (add_pod_bind_annotation small_pod (pos 1))).1
        ≡ none)
allocate-IsNew_example =
    allocate-IsNew (new_node_info rack_node []) small_pod (pod_allocator small_pod) chosen_board
      bare_rack-IsConsistent bare_rack-IsSane chosen-IsInt64 small_pod_new small_pod_chosen
      chosen_proper

small_pod_unknown : has_key Text_discrete small_pod.uid rack_cache.pod_maps ≡ false
unfolding new_schedule_cache add_node lookup
small_pod_unknown = refl

abbrev small_pod-Placeable :
    Placeable
      (server none)
      small_pod
      rack_cache
      node_name_of_rack
      small_pod.name
      small_pod.namespace
      small_pod.uid
small_pod-Placeable = record {
  pod = small_pod;
  world = small_pod;
  fetched = fetched none;
  info = new_node_info rack_node [];
  cached = rack_cached;
  unknown_to_cache = small_pod_unknown;
  unknown_to_node = small_pod_new;
  books = bare_rack-IsConsistent;
  sane = bare_rack-IsSane;
  res = chosen_board;
  chosen = small_pod_chosen;
  proper = chosen_proper;
  int64 = chosen-IsInt64;
}

abbrev pub placed_info : NodeInfo
placed_info =
    (NodeInfo.add_pod (new_node_info rack_node []) (add_pod_bind_annotation small_pod (pos 1))).0

pub placed-NodeReachable : NodeReachable rack_node placed_info
placed-NodeReachable = node_changed node_started (
    pod_placed small_pod (pod_allocator small_pod) chosen_board bare_rack-IsSane chosen-IsInt64
      small_pod_new small_pod_chosen chosen_proper)

NodeReachable-IsOwned_example : IsConsistent placed_info × IsOwned placed_info
NodeReachable-IsOwned_example = NodeReachable-IsOwned placed-NodeReachable

scores_small : ScoresSmall rack_cache (build_request_orin_set small_pod)
scores_small name ni e =
    subst
      (λ (n : NodeInfo).
        IsSmall 10 (binpack_allocate n.allocatable (build_request_orin_set small_pod)).score)
      (sym (only_rack name ni e)) (subst (IsSmall 10) (sym rack_score) (omega arith))

priority-Normalized_example :
    (scores : List ℤ) × (priority rack_cache (node_name_of_rack ∷ codes "m" ∷ []) small_pod
      ≡ done scores)
    × Normalized 10
        (map
          (raw_score rack_cache (build_request_orin_set small_pod))
          (node_name_of_rack ∷ codes "m" ∷ []))
        scores
priority-Normalized_example =
    priority-Normalized rack_cache (node_name_of_rack ∷ codes "m" ∷ []) small_pod
      small_pod_allocator scores_small
