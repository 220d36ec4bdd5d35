-- ===== src/Cache/Reachable.antt =====
-- The calls that the extender and the controller make on the cache, as a step relation.
use orin_device_system.Common.{
  List, none, Text, Text_discrete, lookup, ◌≡◌, Bool-cases, inl, inr, ap, sym, ◌∙◌, Result-cases,
  is_ok, has_key,
}
use mathlib.Core.Option
use mathlib.Core.Bool.{false≢true}
use orin_device_system.Common.Sets.{IntSets, StringSets}
use orin_device_system.Topo
use orin_device_system.Topo.{difference_from_superset}
use orin_device_system.Topo.Difference.{Covers, difference-Covers_iff}
use orin_device_system.Pods.{Pod, Node}
use orin_device_system.NodeInfo.{NodeInfo, new_node_info}
use orin_device_system.NodeInfo.Invariant.{IsConsistent, reserved-Books}
use orin_device_system.NodeInfo.Capacity.{Accepted, bare_node, new_node_info-IsConsistent}
use orin_device_system.Cache.{
  ScheduleCache, new_schedule_cache, add_pod, delete_pod, add_node, updated_node, update_node,
  delete_node, assume_pod, forget_pod,
}
use orin_device_system.Cache.Invariant.{
  AllConsistent, insert-AllConsistent, delete-AllConsistent, add_pod-AllConsistent,
  delete_pod-AllConsistent, assume_pod-AllConsistent, forget_pod-AllConsistent,
}

module _ ⦃S : IntSets⦄ ⦃T : StringSets⦄ where
  -- The new capacity of the node covers what the pods on it request.
  abbrev pub StillCovers : Node → Node → List Pod → Type 0
  StillCovers old_node new_node pods =
      Covers (new_node_info new_node pods).total (new_node_info old_node pods).requested

  updated_node-IsConsistent :
      (old_ni new_ni : NodeInfo)
      → IsConsistent old_ni
      → Covers new_ni.total old_ni.requested
      → IsConsistent (updated_node old_ni new_ni)
  unfolding updated_node
  updated_node-IsConsistent old_ni new_ni c covers =
      elim (Result-cases (difference_from_superset new_ni.total old_ni.requested)) [
        | inl (d, h) ↦
            rw (h, updated_node)
              (reserved-Books new_ni.total old_ni.requested d c.requested_distinct h)
        | inr (e, h) ↦ absurd (
            false≢true (
              sym (ap is_ok h)
              ∙ (difference-Covers_iff new_ni.total old_ni.requested c.requested_distinct).1
                  covers))
      ]

  pub update_node-AllConsistent :
      (c : ScheduleCache) (old_node new_node : Node) (pods : List Pod)
      → AllConsistent c.node_cache
      → Accepted (bare_node old_node) pods
      → StillCovers old_node new_node pods
      → AllConsistent (update_node c old_node new_node pods).0.node_cache
  unfolding update_node
  update_node-AllConsistent c old_node new_node pods all accepted covers =
      let old_ni = new_node_info old_node pods in
      let new_ni = new_node_info new_node pods in
      elim (Bool-cases (Topo.equal old_ni.total new_ni.total)) [
        | inl h ↦ rw h all
        | inr h ↦ rw h (
            insert-AllConsistent new_node.name (updated_node old_ni new_ni) c.node_cache all (
              updated_node-IsConsistent old_ni new_ni
                (new_node_info-IsConsistent old_node pods accepted) covers))
      ]

  delete_node-AllConsistent :
      (c : ScheduleCache) (node : Node)
      → AllConsistent c.node_cache
      → AllConsistent (delete_node c node).0.node_cache
  unfolding delete_node
  delete_node-AllConsistent c node all =
      elim (Bool-cases (has_key Text_discrete node.name c.node_cache)) [
        | inl h ↦ rw h (delete-AllConsistent node.name c.node_cache all)
        | inr h ↦ rw h all
      ]

  -- One call. A call that adds pods is one that accepted them; deleting may also have been refused.
  pub data Step (c : ScheduleCache) : ScheduleCache → Type 0 where
    pod_added : (pod : Pod) → (add_pod c pod).1 ≡ none → Step c (add_pod c pod).0
    pod_deleted : (pod : Pod) → Step c (delete_pod c pod).0
    node_added :
        (node : Node) (pods : List Pod)
        → Accepted (bare_node node) pods
        → Step c (add_node c node pods).0
    node_updated :
        (old_node new_node : Node) (pods : List Pod)
        → Accepted (bare_node old_node) pods
        → StillCovers old_node new_node pods
        → Step c (update_node c old_node new_node pods).0
    node_deleted : (node : Node) → Step c (delete_node c node).0
    pod_assumed :
        (pod : Pod) (node : Text)
        → (assume_pod c pod node).1 ≡ none
        → Step c (assume_pod c pod node).0
    pod_forgotten : (pod : Pod) (node : Text) → Step c (forget_pod c pod node).0

  pub data Reachable : ScheduleCache → Type 0 where
    start : Reachable new_schedule_cache
    next : {c d : ScheduleCache} → Reachable c → Step c d → Reachable d

  Step-AllConsistent :
      {c d : ScheduleCache} → Step c d → AllConsistent c.node_cache → AllConsistent d.node_cache
  unfolding add_node
  Step-AllConsistent {c} (pod_added pod h) all = add_pod-AllConsistent c pod all h
  Step-AllConsistent {c} (pod_deleted pod) all = delete_pod-AllConsistent c pod all
  Step-AllConsistent {c} (node_added node pods h) all =
      insert-AllConsistent node.name (new_node_info node pods) c.node_cache all
        (new_node_info-IsConsistent node pods h)
  Step-AllConsistent {c} (node_updated o n pods h k) all =
      update_node-AllConsistent c o n pods all h k
  Step-AllConsistent {c} (node_deleted node) all = delete_node-AllConsistent c node all
  Step-AllConsistent {c} (pod_assumed pod node h) all = assume_pod-AllConsistent c pod node all h
  Step-AllConsistent {c} (pod_forgotten pod node) all = forget_pod-AllConsistent c pod node all

  -- In every cache that `Reachable` calls of the cache lead to from the empty one, each cached
  -- node has consistent books: its requests lie within its boards, its allocatable map has the
  -- boards of the node, and on them exactly the orins that the node has and nobody requested.
  pub Reachable-AllConsistent : {c : ScheduleCache} → Reachable c → AllConsistent c.node_cache
  unfolding new_schedule_cache lookup
  Reachable-AllConsistent start = λ name ni e. absurd (Option.none-ne-some ni e)
  Reachable-AllConsistent (next r s) = Step-AllConsistent s (Reachable-AllConsistent r)
