-- ===== src/Examples/Widening.antt =====
-- A node whose Total grows, at a concrete input.
use orin_device_system.Common.{
  ℤ, Text, codes, ◌||◌, ◌++◌, ℤ_discrete, pos, [], ◌∷◌, none, some, true, false, Text_discrete,
  insert, delete, has_key, lookup, ◌≡◌, ◌≢◌, refl,
}
use mathlib.Core.Option
use orin_device_system.Common.Sets.{elem}
use orin_device_system.Common.ListSets.{list_sets, add, contains_all, minus, dedup}
use orin_device_system.Topo.{
  difference_from_superset, difference_boards, board_set, orin_set, insert_keys, copy_boards,
  orins_left, add_board, add_orins, add_orin, merge,
}
use orin_device_system.Names.{
  extend_resouce_type_orin_prefix, parse_int, parse_digits, scan, in_range, has_prefix, trim_prefix,
  drop_prefix, orin_id_from_resource_name,
}
use orin_device_system.Pods.{
  Pod, build_request_orin_set, request_containers, request_limits, request_resource,
}
use orin_device_system.Pods.Annotations.{bind_board}
use orin_device_system.NodeInfo.{
  NodeInfo, add_pod, delete_pod, reserve, reserve_anew, release, request_on,
}
use orin_device_system.NodeInfo.Invariant.{IsConsistent, asks, add_pod-IsConsistent}
use orin_device_system.NodeInfo.Widen.{delete_pod-widens}
use orin_device_system.Topo.Views.{has_orin}
use orin_device_system.Topo.Difference.{Covers}
use orin_device_system.Examples.Books.{rack_info-IsConsistent}
use orin_device_system.Examples.Data.{rack_info, bound_to}

-- A pod on board 0, another pod for board 1, and the first one when its annotation is changed.
abbrev moving : Text → Text → Pod
moving uid b = record (bound_to b) {
  uid = uid;
  containers =
      record {
        name = codes "c";
        limits = (extend_resouce_type_orin_prefix ++ codes "1", pos 1) ∷ [];
      }
      ∷ [];
}

abbrev settled_pod : Pod
settled_pod = moving (codes "u") (codes "0")

abbrev refused_pod : Pod
refused_pod = moving (codes "w") (codes "1")

abbrev moved_pod : Pod
moved_pod = moving (codes "u") (codes "1")

abbrev settled_rack : NodeInfo
settled_rack = (add_pod rack_info settled_pod).0

settled_pod_accepted : (add_pod rack_info settled_pod).1 ≡ none
unfolding lookup insert delete Text_discrete ℤ_discrete difference_from_superset difference_boards
    board_set orin_set insert_keys contains_all elem add minus dedup copy_boards orins_left
    add_board add_orins add_orin merge parse_int parse_digits scan in_range build_request_orin_set
    request_containers request_limits request_resource has_prefix trim_prefix drop_prefix
    orin_id_from_resource_name add_pod delete_pod reserve reserve_anew release request_on
settled_pod_accepted = refl

settled_rack-IsConsistent : IsConsistent settled_rack
settled_rack-IsConsistent =
    add_pod-IsConsistent rack_info settled_pod rack_info-IsConsistent settled_pod_accepted

settled_rack_board : has_key ℤ_discrete (pos 1) settled_rack.total ≡ true
unfolding lookup insert delete Text_discrete ℤ_discrete difference_from_superset difference_boards
    board_set orin_set insert_keys contains_all elem add minus dedup copy_boards orins_left
    add_board add_orins add_orin merge parse_int parse_digits scan in_range build_request_orin_set
    request_containers request_limits request_resource has_prefix trim_prefix drop_prefix
    orin_id_from_resource_name add_pod delete_pod reserve reserve_anew release request_on
settled_rack_board = refl

settled_rack_shares : settled_rack.shares_total (pos 1) ≡ true
unfolding lookup insert delete Text_discrete ℤ_discrete difference_from_superset difference_boards
    board_set orin_set insert_keys contains_all elem add minus dedup copy_boards orins_left
    add_board add_orins add_orin merge parse_int parse_digits scan in_range build_request_orin_set
    request_containers request_limits request_resource has_prefix trim_prefix drop_prefix
    orin_id_from_resource_name add_pod delete_pod reserve reserve_anew release request_on
settled_rack_shares = refl

refused_pod_board : bind_board refused_pod ≡ some (pos 1)
unfolding bind_board lookup Text_discrete parse_int parse_digits scan in_range
refused_pod_board = refl

refused_pod_new : has_key Text_discrete refused_pod.uid settled_rack.pods ≡ false
unfolding lookup insert delete Text_discrete ℤ_discrete difference_from_superset difference_boards
    board_set orin_set insert_keys contains_all elem add minus dedup copy_boards orins_left
    add_board add_orins add_orin merge parse_int parse_digits scan in_range build_request_orin_set
    request_containers request_limits request_resource has_prefix trim_prefix drop_prefix
    orin_id_from_resource_name add_pod delete_pod reserve reserve_anew release request_on
refused_pod_new = refl

refused_pod_refused : (add_pod settled_rack refused_pod).1 ≢ none
unfolding lookup insert delete Text_discrete ℤ_discrete difference_from_superset difference_boards
    board_set orin_set insert_keys contains_all elem add minus dedup copy_boards orins_left
    add_board add_orins add_orin merge parse_int parse_digits scan in_range build_request_orin_set
    request_containers request_limits request_resource has_prefix trim_prefix drop_prefix
    orin_id_from_resource_name add_pod delete_pod reserve reserve_anew release request_on
refused_pod_refused = λ h. Option.some-ne-none _ h

moved_pod_board : bind_board moved_pod ≡ some (pos 1)
unfolding bind_board lookup Text_discrete parse_int parse_digits scan in_range
moved_pod_board = refl

moved_pod_known : has_key Text_discrete moved_pod.uid settled_rack.pods ≡ true
unfolding lookup insert delete Text_discrete ℤ_discrete difference_from_superset difference_boards
    board_set orin_set insert_keys contains_all elem add minus dedup copy_boards orins_left
    add_board add_orins add_orin merge parse_int parse_digits scan in_range build_request_orin_set
    request_containers request_limits request_resource has_prefix trim_prefix drop_prefix
    orin_id_from_resource_name add_pod delete_pod reserve reserve_anew release request_on
moved_pod_known = refl

moved_pod_same : build_request_orin_set moved_pod ≡ build_request_orin_set refused_pod
unfolding build_request_orin_set
moved_pod_same = refl

delete_pod-widens_example :
    let after = delete_pod (add_pod settled_rack refused_pod).0 moved_pod in
    (after.1 ≡ none)
    × ((j o : ℤ)
        → has_orin after.0.total j o
          ≡ (asks moved_pod (pos 1) j o || has_orin settled_rack.total j o))
    × ¬ Covers settled_rack.total after.0.total
delete_pod-widens_example =
    delete_pod-widens settled_rack refused_pod moved_pod (pos 1) settled_rack-IsConsistent
      settled_rack_board settled_rack_shares refused_pod_board refused_pod_new refused_pod_refused
      moved_pod_board moved_pod_known moved_pod_same
