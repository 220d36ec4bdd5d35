-- ===== src/NodeInfo/Capacity.antt =====
-- A new node: its topology from the capacity, and its pods.
use orin_device_system.Common.{
  ℤ, ℤ_discrete, List, [], ◌∷◌, none, true, Text, lookup, Distinct, Option-cases, Bool-cases,
  Result-cases, inl, inr, ◌≡◌, refl, arith,
}
use mathlib.Core.Bool.{and-true}
use orin_device_system.Common.Sets.{IntSets}
use orin_device_system.Names.{
  has_prefix, board_id_from_resource_name, extend_resouce_type_board_prefix,
}
use orin_device_system.Topo.{BoardDetails, add_orins}
use orin_device_system.Topo.Views.{has_orin}
use orin_device_system.Topo.Distinctness.{add_board-Distinct}
use orin_device_system.DecimalMap.{new_decimal_map, parse}
use orin_device_system.Pods.{Pod, Node, TextMap}
use orin_device_system.NodeInfo.{
  NodeInfo, add_pod, add_pods, new_node_info, add_capacity, add_capacities, default_orin_start_bit,
}
use orin_device_system.NodeInfo.Invariant.{IsConsistent, add_pod-IsConsistent}

module _ ⦃S : IntSets⦄ where
  -- `addPod` accepts each of the pods, one after the other.
  abbrev pub Accepted : NodeInfo → List Pod → Type 0
  Accepted ni [] = Unit {0}
  Accepted ni (p ∷ ps) = ((add_pod ni p).1 ≡ none) × Accepted (add_pod ni p).0 ps

  add_pods-IsConsistent :
      (ni : NodeInfo) (ps : List Pod)
      → IsConsistent ni
      → Accepted ni ps
      → IsConsistent (add_pods ni ps)
  unfolding add_pods
  add_pods-IsConsistent ni [] c a = c
  add_pods-IsConsistent ni (p ∷ ps) c a =
      add_pods-IsConsistent (add_pod ni p).0 ps (add_pod-IsConsistent ni p c a.0) a.1

  add_capacity-Distinct :
      (rkey : Text) (rval : ℤ) (total : BoardDetails)
      → Distinct ℤ_discrete total
      → Distinct ℤ_discrete (add_capacity rkey rval total)
  unfolding add_capacity
  add_capacity-Distinct rkey rval total n =
      elim (Bool-cases (has_prefix rkey extend_resouce_type_board_prefix)) [
        | inr h ↦ rw h n
        | inl h ↦ rw h (elim (Option-cases (board_id_from_resource_name rkey)) [
          | inl e ↦ rw (e, add_capacity) n
          | inr (b, e) ↦
              rw (e, add_capacity)
                (elim (Result-cases (parse (new_decimal_map rval default_orin_start_bit)).1) [
                  | inr (x, p) ↦ rw (p, add_capacity) n
                  | inl (set, p) ↦
                      rw (p, add_capacity)
                        (add_board-Distinct b (add_orins b (S.unsorted_list set) []) total n)
                ])
        ])
      ]

  add_capacities-Distinct :
      (capacity : TextMap ℤ) (total : BoardDetails)
      → Distinct ℤ_discrete total
      → Distinct ℤ_discrete (add_capacities capacity total)
  unfolding add_capacities
  add_capacities-Distinct [] total n = n
  add_capacities-Distinct ((rkey, rval) ∷ capacity) total n =
      add_capacities-Distinct capacity (add_capacity rkey rval total)
        (add_capacity-Distinct rkey rval total n)

  -- The node before its pods are added: all of it is allocatable.
  abbrev pub bare_node : Node → NodeInfo
  bare_node node =
      let total = add_capacities node.capacity [] in
      record {
        node = node;
        pods = [];
        allocatable = total;
        requested = [];
        total = total;
        shares_total = λ b. true;
      }

  bare_node-IsConsistent : (node : Node) → IsConsistent (bare_node node)
  unfolding lookup
  bare_node-IsConsistent node = record {
    requested_distinct = tt;
    allocatable_distinct = add_capacities-Distinct node.capacity [] tt;
    apart = λ b e. ground (arith, e);
    covered = record { boards = λ b e. ground (arith, e); orins = λ b o e. ground (arith, e) };
    same_boards = λ b. refl;
    left = λ b o. ground (arith, and-true (has_orin (add_capacities node.capacity []) b o));
  }

  -- `NewNodeInfo` of a node whose pods are accepted one after the other has consistent books.
  pub new_node_info-IsConsistent :
      (node : Node) (ps : List Pod)
      → Accepted (bare_node node) ps
      → IsConsistent (new_node_info node ps)
  unfolding new_node_info
  new_node_info-IsConsistent node ps a =
      add_pods-IsConsistent (bare_node node) ps (bare_node-IsConsistent node) a
