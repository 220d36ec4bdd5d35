-- ===== src/Pods.antt =====
-- The pods and nodes that the API server hands out (the fields that the program reads), and the
-- functions on pods of pkg/scheduler/manager/util.go, cache.go and controller.go.
pub mod Annotations
use orin_device_system.Common.{
  ℤ, List, [], ◌∷◌, Option, none, some, Bool, true, false, ◌&&◌, ◌||◌, Text, Text_discrete, insert,
  delete, has_key, lookup, if◌then◌else◌,
}
use orin_device_system.Common.Sets.{IntSets}
use orin_device_system.Names.{
  has_prefix, format_int, orin_id_from_resource_name, extend_resouce_type_board,
  extend_resouce_type_orin_prefix, annotation_pod_bind_to_board, annotation_pod_bind_orin_policy,
}

-- A Go map with text keys.
abbrev pub TextMap : Type 0 → Type 0
TextMap V = List (Text × V)

pub data PodPhase : Type 0 where
  pod_pending pod_running pod_succeeded pod_failed pod_unknown : PodPhase

-- `limits` holds a quantity's `Value()`, an int64.
pub record Container : Type 0 where
  pub name : Text
  pub limits : TextMap ℤ

pub record Pod : Type 0 where
  pub name : Text
  pub namespace : Text
  pub uid : Text
  pub resource_version : Text
  pub labels : TextMap Text
  pub annotations : TextMap Text
  pub deletion_timestamp : Option ℤ
  pub node_name : Text
  pub containers : List Container
  pub phase : PodPhase

pub record Node : Type 0 where
  pub name : Text
  pub deletion_timestamp : Option ℤ
  pub capacity : TextMap ℤ

-- pod.Annotations[AnnotationPodBindToBoard]
abbrev pub board_annotation : Pod → Option Text
board_annotation pod = lookup Text_discrete annotation_pod_bind_to_board pod.annotations

-- The copy of the pod with the board in an annotation and in a label. `DeepCopy` makes no
-- difference on values, and neither does a new map in place of an empty or nil one.
unfoldable pub add_pod_bind_annotation : Pod → ℤ → Pod
add_pod_bind_annotation old_pod board_id =
    let board_id_str = format_int board_id in
    record old_pod {
      annotations =
          insert Text_discrete annotation_pod_bind_to_board board_id_str old_pod.annotations;
      labels = insert Text_discrete annotation_pod_bind_to_board board_id_str old_pod.labels;
    }

abbrev pub is_empty {ℓ} : {A : Type ℓ} → List A → Bool
is_empty [] = true
is_empty (x ∷ xs) = false

unfoldable pub remove_pod_bind_annotation : Pod → Pod
remove_pod_bind_annotation old_pod =
    if is_empty old_pod.labels
    then old_pod
    else if is_empty old_pod.annotations
    then old_pod
    else record old_pod {
      annotations = delete Text_discrete annotation_pod_bind_to_board old_pod.annotations;
      labels = delete Text_discrete annotation_pod_bind_to_board old_pod.labels;
    }

module _ ⦃S : IntSets⦄ where
  -- One key of `c.Resources.Limits`, in `BuildRequestOrinSet`: a name that is no orin's, or that
  -- does not parse, adds nothing.
  unfoldable pub request_resource : Text → S.IntSet → S.IntSet
  request_resource rkey orin_set =
      if has_prefix rkey extend_resouce_type_orin_prefix
      then (elim (orin_id_from_resource_name rkey) [
        | none ↦ orin_set
        | some orin_id ↦ S.insert orin_id orin_set
      ])
      else orin_set

  unfoldable pub request_limits : TextMap ℤ → S.IntSet → S.IntSet
  request_limits [] orin_set = orin_set
  request_limits ((rkey, _) ∷ limits) orin_set =
      request_limits limits (request_resource rkey orin_set)

  unfoldable pub request_containers : List Container → S.IntSet → S.IntSet
  request_containers [] orin_set = orin_set
  request_containers (c ∷ cs) orin_set = request_containers cs (request_limits c.limits orin_set)

  unfoldable pub build_request_orin_set : Pod → S.IntSet
  build_request_orin_set pod = request_containers pod.containers S.empty

unfoldable pub limits_have : TextMap ℤ → Text → Bool
limits_have [] resource_name = false
limits_have ((rkey, _) ∷ limits) resource_name =
    if has_prefix rkey resource_name then true else limits_have limits resource_name

unfoldable pub containers_have : List Container → Text → Bool
containers_have [] resource_name = false
containers_have (c ∷ cs) resource_name =
    if limits_have c.limits resource_name then true else containers_have cs resource_name

unfoldable pub is_resource_exists : Pod → Text → Bool
is_resource_exists pod resource_name = containers_have pod.containers resource_name

unfoldable pub is_orin_pod : Pod → Bool
is_orin_pod pod =
    is_resource_exists pod extend_resouce_type_board
    && is_resource_exists pod extend_resouce_type_orin_prefix

abbrev pub is_terminal : PodPhase → Bool
is_terminal pod_succeeded = true
is_terminal pod_failed = true
is_terminal _ = false

unfoldable pub is_completed_pod : Pod → Bool
is_completed_pod pod =
    (elim pod.deletion_timestamp [ none ↦ false | some t ↦ true ]) || is_terminal pod.phase

unfoldable pub is_binding_board : Pod → Bool
is_binding_board pod = has_key Text_discrete annotation_pod_bind_to_board pod.annotations
