-- ===== src/Cache/Invariant.antt =====
-- The methods of the cache and the books of its nodes.
use orin_device_system.Common.{
  List, Option, none, some, Text, Text_discrete, insert, delete, has_key, lookup, lookup-insert,
  lookup-delete, ◌≡◌, refl, Option-cases, Bool-cases, inl, inr, if_pos, if_neg, sym, ◌∙◌, subst,
}
use mathlib.Core.Option
use orin_device_system.Common.Sets.{IntSets, StringSets}
use orin_device_system.Pods.{Pod, is_empty, is_binding_board}
use orin_device_system.NodeInfo
use orin_device_system.NodeInfo.{NodeInfo, NodeInfoError, new_node_info}
use orin_device_system.NodeInfo.Invariant.{
  IsConsistent, add_pod-IsConsistent, delete_pod-IsConsistent,
}
use orin_device_system.Cache.{
  ScheduleCache, added_pod, add_pod, deleted_pod, delete_pod, assumed_pod, assume_pod,
  forgotten_pod, forget_pod,
}

-- Every node of the map has consistent books.
abbrev pub AllConsistent : List (Text × NodeInfo) → Type 0
AllConsistent m =
    (name : Text) (ni : NodeInfo) → lookup Text_discrete name m ≡ some ni → IsConsistent ni

pub insert-AllConsistent :
    (name : Text) (ni : NodeInfo) (m : List (Text × NodeInfo))
    → AllConsistent m
    → IsConsistent ni
    → AllConsistent (insert Text_discrete name ni m)
insert-AllConsistent name ni m all c k n e =
    let e' = sym (lookup-insert Text_discrete name k ni m) ∙ e in
    elim (Text_discrete k name) [
      | yes p ↦
          subst IsConsistent
            (Option.some-injective ni n (sym (if_pos (Text_discrete k name) p _ _) ∙ e')) c
      | no p ↦ all k n (sym (if_neg (Text_discrete k name) p _ _) ∙ e')
    ]

pub delete-AllConsistent :
    (name : Text) (m : List (Text × NodeInfo))
    → AllConsistent m
    → AllConsistent (delete Text_discrete name m)
delete-AllConsistent name m all k n e =
    let e' = sym (lookup-delete Text_discrete name k m) ∙ e in
    elim (Text_discrete k name) [
      | yes p ↦ absurd (Option.none-ne-some n (sym (if_pos (Text_discrete k name) p _ _) ∙ e'))
      | no p ↦ all k n (sym (if_neg (Text_discrete k name) p _ _) ∙ e')
    ]

module _ ⦃S : IntSets⦄ ⦃T : StringSets⦄ where
  added_pod-AllConsistent :
      (c : ScheduleCache) (pod : Pod) (r : NodeInfo × Option NodeInfoError)
      → AllConsistent c.node_cache
      → (r.1 ≡ none → IsConsistent r.0)
      → (added_pod c pod r).1 ≡ none
      → AllConsistent (added_pod c pod r).0.node_cache
  unfolding added_pod
  added_pod-AllConsistent c pod (ni, some e) all h ok_end = absurd (Option.some-ne-none _ ok_end)
  added_pod-AllConsistent c pod (ni, none) all h ok_end =
      insert-AllConsistent pod.node_name ni c.node_cache all (h refl)

  assumed_pod-AllConsistent :
      (c : ScheduleCache) (pod : Pod) (node : Text) (r : NodeInfo × Option NodeInfoError)
      → AllConsistent c.node_cache
      → (r.1 ≡ none → IsConsistent r.0)
      → (assumed_pod c pod node r).1 ≡ none
      → AllConsistent (assumed_pod c pod node r).0.node_cache
  unfolding assumed_pod
  assumed_pod-AllConsistent c pod node (ni, some e) all h ok_end =
      absurd (Option.some-ne-none _ ok_end)
  assumed_pod-AllConsistent c pod node (ni, none) all h ok_end =
      insert-AllConsistent node ni c.node_cache all (h refl)

  deleted_pod-AllConsistent :
      (c : ScheduleCache) (pod : Pod) (r : NodeInfo × Option NodeInfoError)
      → AllConsistent c.node_cache
      → IsConsistent r.0
      → AllConsistent (deleted_pod c pod r).0.node_cache
  unfolding deleted_pod
  deleted_pod-AllConsistent c pod (ni, some e) all h =
      insert-AllConsistent pod.node_name ni c.node_cache all h
  deleted_pod-AllConsistent c pod (ni, none) all h =
      elim (Bool-cases (has_key Text_discrete pod.uid c.pod_maps)) [
        | inl k ↦ rw k (insert-AllConsistent pod.node_name ni c.node_cache all h)
        | inr k ↦ rw k (insert-AllConsistent pod.node_name ni c.node_cache all h)
      ]

  -- A successful `AddPod` keeps the books of every node.
  pub add_pod-AllConsistent :
      (c : ScheduleCache) (pod : Pod)
      → AllConsistent c.node_cache
      → (add_pod c pod).1 ≡ none
      → AllConsistent (add_pod c pod).0.node_cache
  unfolding add_pod
  add_pod-AllConsistent c pod all ok_end = elim (Bool-cases (is_empty pod.node_name)) [
    | inl a ↦ rw a all
    | inr a ↦ elim (Bool-cases (is_binding_board pod)) [
      | inr b ↦ rw (a, b) all
      | inl b ↦ elim (Bool-cases (has_key Text_discrete pod.uid c.pod_maps)) [
        | inl k ↦ rw (a, b, k) all
        | inr k ↦ elim (Option-cases (lookup Text_discrete pod.node_name c.node_cache)) [
          | inl e ↦ rw (a, b, k) (rw (e, add_pod) all)
          | inr (ni, e) ↦
              rw (a, b, k)
                (rw (e, add_pod)
                  (added_pod-AllConsistent c pod (NodeInfo.add_pod ni pod) all
                    (add_pod-IsConsistent ni pod (all pod.node_name ni e))
                    (rw (e, add_pod) at (rw (a, b, k) at ok_end))))
        ]
      ]
    ]
  ]

  -- `DeletePod` keeps the books of every node, also where it refuses.
  pub delete_pod-AllConsistent :
      (c : ScheduleCache) (pod : Pod)
      → AllConsistent c.node_cache
      → AllConsistent (delete_pod c pod).0.node_cache
  unfolding delete_pod
  delete_pod-AllConsistent c pod all = elim (Bool-cases (is_empty pod.node_name)) [
    | inl a ↦ rw a all
    | inr a ↦ elim (Bool-cases (is_binding_board pod)) [
      | inr b ↦ rw (a, b) all
      | inl b ↦ elim (Option-cases (lookup Text_discrete pod.node_name c.node_cache)) [
        | inl e ↦ rw (a, b) (rw (e, delete_pod) all)
        | inr (ni, e) ↦
            rw (a, b)
              (rw (e, delete_pod)
                (deleted_pod-AllConsistent c pod (NodeInfo.delete_pod ni pod) all
                  (delete_pod-IsConsistent ni pod (all pod.node_name ni e))))
      ]
    ]
  ]

  pub assume_pod-AllConsistent :
      (c : ScheduleCache) (pod : Pod) (node : Text)
      → AllConsistent c.node_cache
      → (assume_pod c pod node).1 ≡ none
      → AllConsistent (assume_pod c pod node).0.node_cache
  unfolding assume_pod
  assume_pod-AllConsistent c pod node all ok_end =
      elim (Option-cases (lookup Text_discrete node c.node_cache)) [
        | inl e ↦ rw (e, assume_pod) all
        | inr (ni, e) ↦ elim (Bool-cases (has_key Text_discrete pod.uid c.pod_maps)) [
          | inl k ↦ rw (e, assume_pod) (rw k all)
          | inr k ↦
              rw (e, assume_pod)
                (rw k (
                  assumed_pod-AllConsistent c pod node (NodeInfo.add_pod ni pod) all
                    (add_pod-IsConsistent ni pod (all node ni e))
                    (rw k at (rw (e, assume_pod) at ok_end))))
        ]
      ]

  pub forget_pod-AllConsistent :
      (c : ScheduleCache) (pod : Pod) (node : Text)
      → AllConsistent c.node_cache
      → AllConsistent (forget_pod c pod node).0.node_cache
  unfolding forget_pod forgotten_pod
  forget_pod-AllConsistent c pod node all =
      elim (Option-cases (lookup Text_discrete node c.node_cache)) [
        | inl e ↦ rw (e, forget_pod) all
        | inr (ni, e) ↦ elim (Bool-cases (has_key Text_discrete pod.uid c.pod_maps)) [
          | inr k ↦ rw (e, forget_pod) (rw k all)
          | inl k ↦
              rw (e, forget_pod)
                (rw k (
                  insert-AllConsistent node (NodeInfo.delete_pod ni pod).0 c.node_cache all
                    (delete_pod-IsConsistent ni pod (all node ni e))))
        ]
      ]
