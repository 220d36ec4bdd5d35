-- ===== src/Cache.antt =====
-- `scheduleCache` of pkg/scheduler/manager/cache.go. Each method holds the lock from its first
-- access to its last, so it is one function from the cache before to the cache after. A node of
-- the map is a pointer: what `addPod` changes before it fails stays changed.
pub mod Invariant
pub mod Reachable
pub mod Effects
pub mod Histories
pub mod WellFormed
pub mod Calls
use orin_device_system.Common.{
  ℤ, List, [], ◌∷◌, Option, none, some, Bool, true, false, Text, Text_discrete, insert, delete,
  has_key, lookup, Result, ok, err, if◌then◌else◌,
}
use orin_device_system.Common.Sets.{IntSets, StringSets}
use orin_device_system.Topo
use orin_device_system.Topo.{new_board_details, difference_from_superset}
use orin_device_system.Pods.{Pod, Node, TextMap, is_empty, is_binding_board}
use orin_device_system.NodeInfo
use orin_device_system.NodeInfo.{NodeInfo, NodeInfoError, new_node_info, taken_over}

pub data CacheError : Type 0 where
  node_not_found pod_already_cached pod_not_cached : CacheError
  node_info_error : NodeInfoError → CacheError

module _ ⦃T : StringSets⦄ where
  pub record ScheduleCache : Type 0 where
    pub node_cache : TextMap NodeInfo
    pub assume_pods : T.StringSet
    pub pod_maps : TextMap Pod
    pub released_pod : TextMap (Unit {0})

  unfoldable pub new_schedule_cache : ScheduleCache
  new_schedule_cache = record {
    node_cache = [];
    assume_pods = T.no_strings;
    pod_maps = [];
    released_pod = [];
  }

  -- The cache with the node that `name` points to changed.
  abbrev pub with_node : ScheduleCache → Text → NodeInfo → ScheduleCache
  with_node c name ni = record c { node_cache = insert Text_discrete name ni c.node_cache }

  abbrev pub with_pod : ScheduleCache → Pod → ScheduleCache
  with_pod c pod = record c { pod_maps = insert Text_discrete pod.uid pod c.pod_maps }

module _ ⦃S : IntSets⦄ ⦃T : StringSets⦄ where
  -- `AddPod`, after its call of `addPod`
  unfoldable pub added_pod :
      ScheduleCache → Pod → NodeInfo × Option NodeInfoError → ScheduleCache × Option CacheError
  added_pod c pod (ni, some e) = (with_node c pod.node_name ni, some (node_info_error e))
  added_pod c pod (ni, none) = (with_pod (with_node c pod.node_name ni) pod, none)

  -- scheduleCache.AddPod
  unfoldable pub add_pod : ScheduleCache → Pod → ScheduleCache × Option CacheError
  add_pod c pod =
      if is_empty pod.node_name
      then (c, none)
      else if is_binding_board pod
      then if has_key Text_discrete pod.uid c.pod_maps
        then (c, none)
        else (elim (lookup Text_discrete pod.node_name c.node_cache) [
          | none ↦ (c, none)
          | some ni ↦ added_pod c pod (NodeInfo.add_pod ni pod)
        ])
      else (c, none)

  -- `DeletePod`, after its call of `deletePod`
  unfoldable pub deleted_pod :
      ScheduleCache → Pod → NodeInfo × Option NodeInfoError → ScheduleCache × Option CacheError
  deleted_pod c pod (ni, some e) = (with_node c pod.node_name ni, some (node_info_error e))
  deleted_pod c pod (ni, none) =
      let c' = with_node c pod.node_name ni in
      if has_key Text_discrete pod.uid c.pod_maps
      then (
        record c' {
          pod_maps = delete Text_discrete pod.uid c.pod_maps;
          released_pod = insert Text_discrete pod.uid tt c.released_pod;
        },
        none,
      )
      else (c', none)

  -- scheduleCache.DeletePod
  unfoldable pub delete_pod : ScheduleCache → Pod → ScheduleCache × Option CacheError
  delete_pod c pod =
      if is_empty pod.node_name
      then (c, none)
      else if is_binding_board pod
      then (elim (lookup Text_discrete pod.node_name c.node_cache) [
        | none ↦ (c, none)
        | some ni ↦ deleted_pod c pod (NodeInfo.delete_pod ni pod)
      ])
      else (c, none)

  -- scheduleCache.AddNode; `NewNodeInfo` never returns nil
  unfoldable pub add_node : ScheduleCache → Node → List Pod → ScheduleCache × Option CacheError
  add_node c node pods = (with_node c node.name (new_node_info node pods), none)

  -- scheduleCache.GetNode; `none` is nil
  unfoldable pub get_node : ScheduleCache → Text → Option NodeInfo
  get_node c name = lookup Text_discrete name c.node_cache

  -- The node that `UpdateNode` puts in place of the old one: with the requests of the old one, and
  -- nothing allocatable where the new capacity does not cover them.
  unfoldable pub updated_node : NodeInfo → NodeInfo → NodeInfo
  updated_node old_ni new_ni = record new_ni {
    requested = old_ni.requested;
    allocatable = (elim (difference_from_superset new_ni.total old_ni.requested) [
      | err e ↦ new_board_details
      | ok new_allocate ↦ new_allocate
    ]);
    shares_total = (elim (difference_from_superset new_ni.total old_ni.requested) [
      | err e ↦ λ b. false
      | ok new_allocate ↦ taken_over new_ni.total old_ni.requested
    ]);
  }

  -- scheduleCache.UpdateNode
  unfoldable pub update_node :
      ScheduleCache → Node → Node → List Pod → ScheduleCache × Option CacheError
  update_node c old_node new_node pods =
      let old_ni = new_node_info old_node pods in
      let new_ni = new_node_info new_node pods in
      if Topo.equal old_ni.total new_ni.total
      then (c, none)
      else (with_node c new_node.name (updated_node old_ni new_ni), none)

  -- scheduleCache.DeleteNode
  unfoldable pub delete_node : ScheduleCache → Node → ScheduleCache × Option CacheError
  delete_node c node =
      if has_key Text_discrete node.name c.node_cache
      then (record c { node_cache = delete Text_discrete node.name c.node_cache }, none)
      else (c, some node_not_found)

  -- `AssumePod`, after its call of `addPod`
  unfoldable pub assumed_pod :
      ScheduleCache
      → Pod
      → Text
      → NodeInfo × Option NodeInfoError
      → ScheduleCache × Option CacheError
  assumed_pod c pod node (ni, some e) = (with_node c node ni, some (node_info_error e))
  assumed_pod c pod node (ni, none) = (
    record (with_pod (with_node c node ni) pod) {
      assume_pods = T.insert_string pod.uid c.assume_pods;
    },
    none,
  )

  -- scheduleCache.AssumePod
  unfoldable pub assume_pod : ScheduleCache → Pod → Text → ScheduleCache × Option CacheError
  assume_pod c pod node = elim (lookup Text_discrete node c.node_cache) [
    | none ↦ (c, some node_not_found)
    | some ni ↦
        if has_key Text_discrete pod.uid c.pod_maps
        then (c, some pod_already_cached)
        else assumed_pod c pod node (NodeInfo.add_pod ni pod)
  ]

  abbrev pub node_error : Option NodeInfoError → Option CacheError
  node_error none = none
  node_error (some e) = some (node_info_error e)

  -- `ForgetPod`, after its call of `deletePod`
  unfoldable pub forgotten_pod :
      ScheduleCache → Text → NodeInfo × Option NodeInfoError → ScheduleCache × Option CacheError
  forgotten_pod c node (ni, e) = (with_node c node ni, node_error e)

  -- scheduleCache.ForgetPod
  unfoldable pub forget_pod : ScheduleCache → Pod → Text → ScheduleCache × Option CacheError
  forget_pod c pod node = elim (lookup Text_discrete node c.node_cache) [
    | none ↦ (c, some node_not_found)
    | some ni ↦
        if has_key Text_discrete pod.uid c.pod_maps
        then forgotten_pod c node (NodeInfo.delete_pod ni pod)
        else (c, some pod_not_cached)
  ]

  -- scheduleCache.KnownPod
  unfoldable pub known_pod : ScheduleCache → Pod → Bool
  known_pod c pod = has_key Text_discrete pod.uid c.pod_maps
