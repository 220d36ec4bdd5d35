-- ===== src/Examples/Data.antt =====
-- The node and the pods of the examples.
use orin_device_system.Common.{ℤ, pos, [], ◌∷◌, ◌++◌, none, true, Text, codes}
use orin_device_system.Topo.{OrinDetails, BoardDetails}
use orin_device_system.Names.{
  annotation_pod_bind_to_board, annotation_pod_bind_orin_policy, extend_resouce_type_board,
  extend_resouce_type_board_prefix, extend_resouce_type_orin_prefix,
}
use orin_device_system.Pods.{Pod, Node, pod_pending}
use orin_device_system.NodeInfo.{NodeInfo}

-- Orins 1 and 2 of a board.
abbrev pub two_orins : ℤ → OrinDetails
two_orins b = (pos 1, record { board_id = b }) ∷ (pos 2, record { board_id = b }) ∷ []

abbrev pub one_orin : ℤ → OrinDetails
one_orin b = (pos 2, record { board_id = b }) ∷ []

-- Board 0 has orins 1 and 2, board 1 has orin 2.
abbrev pub rack : BoardDetails
rack = (pos 0, two_orins (pos 0)) ∷ (pos 1, one_orin (pos 1)) ∷ []

abbrev pub node_name_of_rack : Text
node_name_of_rack = codes "n"

abbrev pub rack_node : Node
rack_node = record {
  name = node_name_of_rack;
  deletion_timestamp = none;
  capacity =
      (extend_resouce_type_board, pos 1024)
      ∷ (extend_resouce_type_board_prefix ++ codes "0", pos 11)
      ∷ (extend_resouce_type_board_prefix ++ codes "1", pos 10)
      ∷ [];
}

-- A pod that asks for orin 2.
abbrev pub small_pod : Pod
small_pod = record {
  name = codes "p";
  namespace = codes "d";
  uid = codes "u";
  resource_version = codes "1";
  labels = [];
  annotations = [];
  deletion_timestamp = none;
  node_name = node_name_of_rack;
  containers =
      record {
        name = codes "c";
        limits = (extend_resouce_type_orin_prefix ++ codes "2", pos 1) ∷ [];
      }
      ∷ [];
  phase = pod_pending;
}

abbrev pub bound_to : Text → Pod
bound_to b = record small_pod { annotations = (annotation_pod_bind_to_board, b) ∷ [] }

-- The same pod, bound to board 1.
abbrev pub bound_pod : Pod
bound_pod = bound_to (codes "1")

-- A pod whose board the node does not have.
abbrev pub stray_pod : Pod
stray_pod = record (bound_to (codes "7")) { uid = codes "v" }

-- A pod that asks for a policy of which there is no allocator.
abbrev pub spread_pod : Pod
spread_pod = record small_pod {
  annotations = (annotation_pod_bind_orin_policy, codes "spread") ∷ [];
}

-- The node of the rack, with no pods.
abbrev pub rack_info : NodeInfo
rack_info = record {
  node = rack_node;
  pods = [];
  allocatable = rack;
  requested = [];
  total = rack;
  shares_total = λ b. true;
}
