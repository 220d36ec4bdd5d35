-- ===== src/Manager/Sharing.antt =====
-- The life of a node's books: pods are placed where the allocator says, and completed pods go.
use orin_device_system.Common.{
  ℤ, [], Option, none, some, false, Text_discrete, has_key, lookup, ◌≡◌, ◌≢◌, arith,
}
use mathlib.Core.Option
use mathlib.Core.Bool.{false≢true}
use orin_device_system.Common.Sets.{IntSets}
use orin_device_system.Names.RoundTrip.{IsInt64}
use orin_device_system.Allocator.{done, Allocator, AllocatorResult, allocate, board_id_not_fount}
use orin_device_system.Allocator.BestFit.{IsSane}
use orin_device_system.Pods.{Pod, Node, add_pod_bind_annotation, build_request_orin_set}
use orin_device_system.Pods.Annotations.{bind_board}
use orin_device_system.NodeInfo.{NodeInfo, add_pod, delete_pod, new_node_info, add_pods}
use orin_device_system.NodeInfo.Invariant.{
  IsConsistent, add_pod-IsConsistent, delete_pod-IsConsistent,
}
use orin_device_system.NodeInfo.Capacity.{new_node_info-IsConsistent}
use orin_device_system.NodeInfo.Release.{add_pod-Reserved, delete_pod-Released, delete_pod-apart}
use orin_device_system.NodeInfo.Ownership.{IsOwned, Reserved-IsOwned, Released-IsOwned}
use orin_device_system.Manager.Choice.{allocate-IsNew}

module _ ⦃S : IntSets⦄ where
  -- What happens to a node: `Bind` places a pod that is new to it on the board that the allocator
  -- chooses, or a pod that it has recorded goes, by `DeletePod` or `ForgetPod`.
  pub data NodeStep (ni : NodeInfo) : NodeInfo → Type 0 where
    pod_placed :
        (pod : Pod) (a : Option Allocator) (res : AllocatorResult)
        → IsSane ni.allocatable
        → IsInt64 res.board_id
        → has_key Text_discrete pod.uid ni.pods ≡ false
        → allocate a ni.allocatable (build_request_orin_set pod) ≡ done res
        → res.board_id ≢ board_id_not_fount
        → NodeStep ni (add_pod ni (add_pod_bind_annotation pod res.board_id)).0
    pod_gone :
        (pod : Pod) (b : ℤ)
        → bind_board pod ≡ some b
        → lookup Text_discrete pod.uid ni.pods ≡ some pod
        → (delete_pod ni pod).1 ≡ none
        → NodeStep ni (delete_pod ni pod).0

  pub data NodeReachable (node : Node) : NodeInfo → Type 0 where
    node_started : NodeReachable node (new_node_info node [])
    node_changed :
        {ni ni' : NodeInfo} → NodeReachable node ni → NodeStep ni ni' → NodeReachable node ni'

  bare_node-IsOwned : (node : Node) → IsOwned (new_node_info node [])
  unfolding new_node_info add_pods lookup
  bare_node-IsOwned node = record {
    owned = λ j o h. absurd (false≢true h);
    counted = λ u j o w. absurd (Option.none-ne-some w.owner w.recorded);
    unshared = λ u u' j o w w'. absurd (Option.none-ne-some w.owner w.recorded);
  }

  NodeStep-kept :
      {ni ni' : NodeInfo}
      → NodeStep ni ni'
      → IsConsistent ni
      → IsOwned ni
      → IsConsistent ni' × IsOwned ni'
  NodeStep-kept {ni} (pod_placed pod a res sane int64 unknown chosen proper) books own =
      let bound = add_pod_bind_annotation pod res.board_id in
      let (fresh, accepted) = allocate-IsNew ni pod a res books sane int64 unknown chosen proper in
      (
        add_pod-IsConsistent ni bound books accepted,
        Reserved-IsOwned ni (add_pod ni bound).0 bound res.board_id fresh
            (add_pod-Reserved ni bound res.board_id fresh.bound fresh.unknown accepted) own,
      )
  NodeStep-kept {ni} (pod_gone pod b bound there succeeded) books own = (
    delete_pod-IsConsistent ni pod books,
    Released-IsOwned ni (delete_pod ni pod).0 pod b bound there
        (delete_pod-Released ni pod b bound (ground (arith, there))
          (delete_pod-apart ni pod b books bound (ground (arith, there)) succeeded) succeeded)
        own,
  )

  -- On a node that was added without pods, after any number of placements of new pods on the
  -- boards that the allocators chose from sane maps of free orins, and of deletions of recorded
  -- pods: the books are consistent, every requested orin is asked for by a recorded pod and the
  -- other way round, and no two recorded pods ask for the same orin of a board.
  pub NodeReachable-IsOwned :
      {node : Node} {ni : NodeInfo} → NodeReachable node ni → IsConsistent ni × IsOwned ni
  NodeReachable-IsOwned {node} node_started =
      (new_node_info-IsConsistent node [] tt, bare_node-IsOwned node)
  NodeReachable-IsOwned (node_changed r s) =
      let (books, own) = NodeReachable-IsOwned r in NodeStep-kept s books own
