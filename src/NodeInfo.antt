-- ===== src/NodeInfo.antt =====
-- `NodeInfo` of pkg/scheduler/manager/cache.go: what one node has, what its pods have taken, and
-- what is left. An operation returns the node beside its error, since Go keeps the changes that an
-- operation made before it failed.
pub mod Invariant
pub mod Release
pub mod Widen
pub mod UndoAdd
pub mod Capacity
pub mod Ownership
pub mod AddAgain
pub mod Bounds
pub mod Identity
pub mod Intact
use orin_device_system.Common.{
  ℤ, ℤ_discrete, pos, List, [], ◌∷◌, Option, none, some, Bool, true, false, ◌&&◌, not, Text,
  Text_discrete, insert, delete, has_key, lookup, Result, ok, err, if◌then◌else◌,
}
use orin_device_system.Common.Sets.{IntSets}
use orin_device_system.Names.{
  has_prefix, parse_int, board_id_from_resource_name, extend_resouce_type_board_prefix,
}
use orin_device_system.Topo.{
  OrinDetails, BoardDetails, DetailsError, new_board_details, new_orin_details, add_orins,
  add_board, difference_from_superset, board,
}
use orin_device_system.DecimalMap.{new_decimal_map, parse}
use orin_device_system.Pods.{Pod, Node, TextMap, board_annotation, build_request_orin_set}

-- `shares_total b` says that board `b` of Allocatable is, or would be, the very map that Total has
-- there, so that an addition to the one is an addition to the other.
pub record NodeInfo : Type 0 where
  pub node : Node
  pub pods : TextMap Pod
  pub allocatable : BoardDetails
  pub requested : BoardDetails
  pub total : BoardDetails
  pub shares_total : ℤ → Bool

pub data NodeInfoError : Type 0 where
  pod_not_contained : NodeInfoError
  details_error : DetailsError → NodeInfoError

-- DefaultOrinStartBit
abbrev pub default_orin_start_bit : ℤ
default_orin_start_bit = pos 1

-- `total.DifferenceFromSuperset(requested)` takes over the maps of the boards that nobody requests.
abbrev pub taken_over : BoardDetails → BoardDetails → ℤ → Bool
taken_over total requested b = has_key ℤ_discrete b total && not (has_key ℤ_discrete b requested)

module _ ⦃S : IntSets⦄ where
  -- The orins that the pod requests, as they are marked on board `b`.
  unfoldable pub request_on : ℤ → Pod → OrinDetails → OrinDetails
  request_on b pod od = add_orins b (S.unsorted_list (build_request_orin_set pod)) od

  -- `deletePod` from the release of board `b` on. `Allocatable.Add` changes the map of the board in
  -- place, in Total too where they share it.
  unfoldable pub release : NodeInfo → Pod → ℤ → NodeInfo × Option NodeInfoError
  release ni pod b =
      let need_release = request_on b pod new_orin_details in
      elim (difference_from_superset ni.requested (add_board b need_release new_board_details)) [
        | err e ↦ (ni, some (details_error e))
        | ok new_request ↦ (
          record ni {
            requested = new_request;
            allocatable = add_board b need_release ni.allocatable;
            total = if ni.shares_total b then add_board b need_release ni.total else ni.total;
            pods = delete Text_discrete pod.uid ni.pods;
          },
          none,
        )
      ]

  -- NodeInfo.deletePod
  unfoldable pub delete_pod : NodeInfo → Pod → NodeInfo × Option NodeInfoError
  delete_pod ni pod = elim (board_annotation pod) [
    | none ↦ (ni, none)
    | some bind_board_id_str ↦
        if has_key Text_discrete pod.uid ni.pods
        then (elim (parse_int bind_board_id_str) [ none ↦ (ni, none) | some b ↦ release ni pod b ])
        else (ni, some pod_not_contained)
  ]

  -- `addPod` from the request on board `b` on. `Requested` is changed before the check.
  unfoldable pub reserve : NodeInfo → Pod → ℤ → NodeInfo × Option NodeInfoError
  reserve ni pod b =
      let od = request_on b pod (board ni.requested b) in
      let requested = insert ℤ_discrete b od ni.requested in
      elim (difference_from_superset ni.total requested) [
        | err e ↦ (record ni { requested = requested }, some (details_error e))
        | ok new_allocatable ↦ (
          record ni {
            requested = requested;
            allocatable = new_allocatable;
            shares_total = taken_over ni.total requested;
            pods = insert Text_discrete pod.uid pod ni.pods;
          },
          none,
        )
      ]

  -- A pod that is there already is deleted first.
  unfoldable pub reserve_anew :
      NodeInfo × Option NodeInfoError → Pod → ℤ → NodeInfo × Option NodeInfoError
  reserve_anew (ni, some e) pod b = (ni, some e)
  reserve_anew (ni, none) pod b = reserve ni pod b

  -- NodeInfo.addPod
  unfoldable pub add_pod : NodeInfo → Pod → NodeInfo × Option NodeInfoError
  add_pod ni pod = elim (board_annotation pod) [
    | none ↦ (ni, none)
    | some bind_board_id_str ↦ (elim (parse_int bind_board_id_str) [
      | none ↦ (ni, none)
      | some b ↦
          if has_key Text_discrete pod.uid ni.pods
          then reserve_anew (delete_pod ni pod) pod b
          else reserve ni pod b
    ])
  ]

  -- One entry of `node.Status.Capacity`: a name that is no board's, or an entry that does not
  -- parse, adds nothing.
  unfoldable pub add_capacity : Text → ℤ → BoardDetails → BoardDetails
  add_capacity rkey rval total =
      if has_prefix rkey extend_resouce_type_board_prefix
      then (elim (board_id_from_resource_name rkey) [
        | none ↦ total
        | some board_id ↦ (elim (parse (new_decimal_map rval default_orin_start_bit)).1 [
          | err e ↦ total
          | ok orin_set ↦
              add_board board_id (add_orins board_id (S.unsorted_list orin_set) new_orin_details)
                total
        ])
      ])
      else total

  unfoldable pub add_capacities : TextMap ℤ → BoardDetails → BoardDetails
  add_capacities [] total = total
  add_capacities ((rkey, rval) ∷ capacity) total =
      add_capacities capacity (add_capacity rkey rval total)

  -- for _, p := range pods { ni.addPod(p) }, where an error is only logged
  unfoldable pub add_pods : NodeInfo → List Pod → NodeInfo
  add_pods ni [] = ni
  add_pods ni (p ∷ ps) = add_pods (add_pod ni p).0 ps

  unfoldable pub new_node_info : Node → List Pod → NodeInfo
  new_node_info node pods =
      let total = add_capacities node.capacity new_board_details in
      add_pods
        (record {
          node = node;
          pods = [];
          allocatable = total;
          requested = new_board_details;
          total = total;
          shares_total = λ b. true;
        })
        pods
