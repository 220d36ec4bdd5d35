-- ===== src/Manager/Bounds.antt =====
-- The IDs in the books of a node (NodeInfo of pkg/scheduler/manager/cache.go) over its life.
use orin_device_system.Common.{[], sym, ◌∙◌, subst, arith}
use orin_device_system.Common.Sets.{IntSets}
use orin_device_system.Topo.{BoardDetails, new_board_details}
use orin_device_system.Topo.Difference.{Covers}
use orin_device_system.Pods.{Node, add_pod_bind_annotation}
use orin_device_system.NodeInfo.{NodeInfo}
use orin_device_system.NodeInfo.Intact.{
  IsIntact, add_pod-IsIntact, delete_pod-IsIntact, new_node_info-IsIntact,
}
use orin_device_system.NodeInfo.Bounds.{
  IsBounded, FitsInt64, add_capacities-IsBounded, no_boards-IsBounded,
}
use orin_device_system.Manager.Choice.{allocate-IsNew}
use orin_device_system.Manager.Sharing.{
  NodeStep, pod_placed, pod_gone, NodeReachable, node_started, node_changed,
}

module _ ⦃S : IntSets⦄ where
  NodeStep-IsIntact : {ni ni' : NodeInfo} → NodeStep ni ni' → IsIntact ni → IsIntact ni'
  NodeStep-IsIntact {ni} (pod_placed pod a res sane int64 unknown chosen proper) i =
      let (_, accepted) = allocate-IsNew ni pod a res i.books sane int64 unknown chosen proper in
      add_pod-IsIntact ni (add_pod_bind_annotation pod res.board_id) i accepted
  NodeStep-IsIntact {ni} (pod_gone pod b bound there succeeded) i = delete_pod-IsIntact ni pod i

  NodeReachable-IsIntact : {node : Node} {ni : NodeInfo} → NodeReachable node ni → IsIntact ni
  NodeReachable-IsIntact {node} node_started = new_node_info-IsIntact node [] tt
  NodeReachable-IsIntact (node_changed r s) = NodeStep-IsIntact s (NodeReachable-IsIntact r)

  within-IsBounded :
      (total part : BoardDetails) → IsBounded total → Covers total part → IsBounded part
  within-IsBounded total part t c = record {
    boards = λ b h. t.boards b (c.boards b h);
    orins = λ b o h. t.orins b o (c.orins b o h);
  }

  -- On a node that was added without pods, with int64 capacities, after any number of placements of
  -- new pods on the boards that the allocators chose from sane maps of free orins, and of deletions
  -- of recorded pods: every board in the total, in the requests and in what is allocatable has an
  -- int64 as its ID, and every orin on these boards an ID from 1 to 19.
  pub NodeReachable-IsBounded :
      {node : Node} {ni : NodeInfo}
      → NodeReachable node ni
      → FitsInt64 ni.node
      → IsBounded ni.total × IsBounded ni.requested × IsBounded ni.allocatable
  NodeReachable-IsBounded {ni = ni} r fits =
      let i = NodeReachable-IsIntact r in
      let t : IsBounded ni.total =
        subst IsBounded (sym i.computed)
          (add_capacities-IsBounded ni.node.capacity new_board_details fits no_boards-IsBounded) in
      (
        t,
        within-IsBounded ni.total ni.requested t i.books.covered,
        within-IsBounded ni.total ni.allocatable t (record {
          boards = λ b h. sym (i.books.same_boards b) ∙ h;
          orins = λ b o h. ground (arith, h, i.books.left b o);
        }),
      )
