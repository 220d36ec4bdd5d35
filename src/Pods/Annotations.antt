-- ===== src/Pods/Annotations.antt =====
-- The board annotation: written by `Bind`, read by the node cache and by the device plugin.
use orin_device_system.Common.{
  ℤ, [], ◌∷◌, Option, none, some, true, false, Text, Text_discrete, insert, lookup, lookup-insert,
  lookup-delete, ◌≡◌, refl, arith, ite, if_pos, ◌∙◌,
}
use orin_device_system.Common.Sets.{IntSets}
use orin_device_system.Names.{format_int, parse_int, annotation_pod_bind_to_board}
use orin_device_system.Names.RoundTrip.{IsInt64, parse_int-format_int}
use orin_device_system.Pods.{
  Pod, board_annotation, add_pod_bind_annotation, remove_pod_bind_annotation, is_binding_board,
  build_request_orin_set, is_empty, TextMap,
}

-- The board that the pod's annotation names, as `addPod`, `deletePod` and `PreStartContainer` read it.
unfoldable pub bind_board : Pod → Option ℤ
bind_board pod = elim (board_annotation pod) [ none ↦ none | some s ↦ parse_int s ]

pub board_annotation-add :
    (pod : Pod) (b : ℤ) → board_annotation (add_pod_bind_annotation pod b) ≡ some (format_int b)
unfolding add_pod_bind_annotation
board_annotation-add pod b =
    let k = annotation_pod_bind_to_board in
    lookup-insert Text_discrete k k (format_int b) pod.annotations
    ∙ if_pos (Text_discrete k k) refl _ _

-- For a board with an int as its ID, the board that `AddPodBindAnnotation` writes is the one that
-- is read from the annotation, `IsBindingBoard` holds, and the pod has the UID, the node and the
-- requested orins that it had.
pub bind_board-add :
    ⦃S : IntSets⦄
    → (pod : Pod) (b : ℤ) → IsInt64 b
    → let bound = add_pod_bind_annotation pod b in
      (bind_board bound ≡ some b)
      × (is_binding_board bound ≡ true)
      × (bound.uid ≡ pod.uid)
      × (bound.node_name ≡ pod.node_name)
      × (build_request_orin_set bound ≡ build_request_orin_set pod)
unfolding bind_board is_binding_board build_request_orin_set add_pod_bind_annotation
bind_board-add pod b h = (
  ground (arith, board_annotation-add pod b, parse_int-format_int b h),
  ground (arith, board_annotation-add pod b),
  refl,
  refl,
  refl,
)

is_empty-insert : (k v : Text) (m : TextMap Text) → is_empty (insert Text_discrete k v m) ≡ false
unfolding insert
is_empty-insert k v [] = refl
is_empty-insert k v ((j, w) ∷ m) = ground arith

-- `RemovePodBindAnnotation` after `AddPodBindAnnotation` leaves neither the annotation nor the
-- label of the board, and every other annotation as it was.
pub remove-add :
    (pod : Pod) (b : ℤ) (k : Text)
    → let pod' = remove_pod_bind_annotation (add_pod_bind_annotation pod b) in
      (is_binding_board pod' ≡ false)
      × (lookup Text_discrete annotation_pod_bind_to_board pod'.labels ≡ none)
      × (lookup Text_discrete k pod'.annotations
          ≡ ite
              (Text_discrete k annotation_pod_bind_to_board)
              none
              (lookup Text_discrete k pod.annotations))
unfolding remove_pod_bind_annotation add_pod_bind_annotation is_binding_board
remove-add pod b k =
    let key = annotation_pod_bind_to_board in
    let v = format_int b in
    let with_label = insert Text_discrete key v pod.labels in
    let with_annotation = insert Text_discrete key v pod.annotations in
    rw (is_empty-insert key v pod.labels, is_empty-insert key v pod.annotations)
      (
        ground (arith, lookup-delete Text_discrete key key with_annotation),
        lookup-delete Text_discrete key key with_label ∙ if_pos (Text_discrete key key) refl _ _,
        ground (
          arith,
          lookup-delete Text_discrete key k with_annotation,
          lookup-insert Text_discrete key k v pod.annotations,
        ),
      )
