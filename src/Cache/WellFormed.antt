-- ===== src/Cache/WellFormed.antt =====
-- What each method of the cache of pkg/scheduler/manager/cache.go keeps, whether it fails or not.
use orin_device_system.Common.{
  ℤ, ℤ_discrete, true, arith, Result-cases, List, Option, none, some, Text, Text_discrete, insert,
  has_key, lookup, lookup-insert, lookup-delete, Distinct, insert-Distinct, delete-Distinct, ◌≡◌,
  refl, if_pos, if_neg, Option-cases, Bool-cases, inl, inr, sym, ◌∙◌, subst, ap,
}
use mathlib.Core.Option
use mathlib.Core.Bool.{false≢true}
use orin_device_system.Common.Sets.{IntSets, StringSets}
use orin_device_system.Topo
use orin_device_system.Topo.{new_board_details, difference_from_superset}
use orin_device_system.Pods.{Pod, Node, is_empty, is_binding_board}
use orin_device_system.NodeInfo
use orin_device_system.NodeInfo.{NodeInfo, NodeInfoError, new_node_info}
use orin_device_system.NodeInfo.Identity.{
  IsNamed, IsKeyed, insert-IsKeyed, delete-IsKeyed, delete_pod-IsNamed, add_pod-IsNamed,
  new_node_info-IsNamed,
}
use orin_device_system.Cache.{
  ScheduleCache, added_pod, add_pod, deleted_pod, delete_pod, updated_node, update_node,
  delete_node, assumed_pod, assume_pod, forgotten_pod, forget_pod,
}

module _ ⦃S : IntSets⦄ ⦃T : StringSets⦄ where
  pub record IsWellFormed (c : ScheduleCache) : Type 0 where
    pub distinct : Distinct Text_discrete c.node_cache
    pub nodes :
        (name : Text) (ni : NodeInfo)
        → lookup Text_discrete name c.node_cache ≡ some ni
        → IsNamed name ni
    pub known : IsKeyed c.pod_maps

  pub with_node-IsWellFormed :
      (c : ScheduleCache) (name : Text) (ni : NodeInfo)
      → IsNamed name ni
      → IsWellFormed c
      → IsWellFormed (record c { node_cache = insert Text_discrete name ni c.node_cache })
  with_node-IsWellFormed c name ni n w = record {
    distinct = insert-Distinct Text_discrete name ni c.node_cache w.distinct;
    nodes = λ j nj e.
        let e' = sym (lookup-insert Text_discrete name j ni c.node_cache) ∙ e in
        elim (Text_discrete j name) [
          | yes p ↦
              subst (λ k. IsNamed k nj) (sym p)
                (subst (IsNamed name)
                  (Option.some-injective ni nj (sym (if_pos (Text_discrete j name) p _ _) ∙ e')) n)
          | no p ↦ w.nodes j nj (sym (if_neg (Text_discrete j name) p _ _) ∙ e')
        ];
    known = w.known;
  }

  -- The cache after a pod became known, or unknown.
  with_pods-IsWellFormed :
      (c c' : ScheduleCache)
      → c'.node_cache ≡ c.node_cache
      → IsKeyed c'.pod_maps
      → IsWellFormed c
      → IsWellFormed c'
  with_pods-IsWellFormed c c' same keyed w = record {
    distinct = subst (Distinct Text_discrete) (sym same) w.distinct;
    nodes = λ name ni e. w.nodes name ni (sym (ap (lookup Text_discrete name) same) ∙ e);
    known = keyed;
  }

  added_pod-IsWellFormed :
      (c : ScheduleCache) (pod : Pod) (r : NodeInfo × Option NodeInfoError)
      → IsNamed pod.node_name r.0
      → IsWellFormed c
      → IsWellFormed (added_pod c pod r).0
  unfolding added_pod
  added_pod-IsWellFormed c pod (ni, some e) n w = with_node-IsWellFormed c pod.node_name ni n w
  added_pod-IsWellFormed c pod (ni, none) n w =
      with_pods-IsWellFormed _ _ refl (insert-IsKeyed pod c.pod_maps w.known)
        (with_node-IsWellFormed c pod.node_name ni n w)

  deleted_pod-IsWellFormed :
      (c : ScheduleCache) (pod : Pod) (r : NodeInfo × Option NodeInfoError)
      → IsNamed pod.node_name r.0
      → IsWellFormed c
      → IsWellFormed (deleted_pod c pod r).0
  unfolding deleted_pod
  deleted_pod-IsWellFormed c pod (ni, some e) n w = with_node-IsWellFormed c pod.node_name ni n w
  deleted_pod-IsWellFormed c pod (ni, none) n w =
      elim (Bool-cases (has_key Text_discrete pod.uid c.pod_maps)) [
        | inl h ↦ rw h (
            with_pods-IsWellFormed
              (record c { node_cache = insert Text_discrete pod.node_name ni c.node_cache }) _ refl
              (delete-IsKeyed pod.uid c.pod_maps w.known)
              (with_node-IsWellFormed c pod.node_name ni n w))
        | inr h ↦ rw h (with_node-IsWellFormed c pod.node_name ni n w)
      ]

  assumed_pod-IsWellFormed :
      (c : ScheduleCache) (pod : Pod) (node : Text) (r : NodeInfo × Option NodeInfoError)
      → IsNamed node r.0
      → IsWellFormed c
      → IsWellFormed (assumed_pod c pod node r).0
  unfolding assumed_pod
  assumed_pod-IsWellFormed c pod node (ni, some e) n w = with_node-IsWellFormed c node ni n w
  assumed_pod-IsWellFormed c pod node (ni, none) n w =
      with_pods-IsWellFormed (record c { node_cache = insert Text_discrete node ni c.node_cache }) _
        refl (insert-IsKeyed pod c.pod_maps w.known) (with_node-IsWellFormed c node ni n w)

  forgotten_pod-IsWellFormed :
      (c : ScheduleCache) (node : Text) (r : NodeInfo × Option NodeInfoError)
      → IsNamed node r.0
      → IsWellFormed c
      → IsWellFormed (forgotten_pod c node r).0
  unfolding forgotten_pod
  forgotten_pod-IsWellFormed c node (ni, e) n w = with_node-IsWellFormed c node ni n w

  pub add_pod-IsWellFormed :
      (c : ScheduleCache) (pod : Pod) → IsWellFormed c → IsWellFormed (add_pod c pod).0
  unfolding add_pod
  add_pod-IsWellFormed c pod w = elim (Bool-cases (is_empty pod.node_name)) [
    | inl h ↦ rw h w
    | inr h ↦ rw h (elim (Bool-cases (is_binding_board pod)) [
      | inr k ↦ rw k w
      | inl k ↦ rw k (elim (Bool-cases (has_key Text_discrete pod.uid c.pod_maps)) [
        | inl l ↦ rw l w
        | inr l ↦ rw l (elim (Option-cases (lookup Text_discrete pod.node_name c.node_cache)) [
          | inl e ↦ rw (e, add_pod) w
          | inr (ni, e) ↦
              rw (e, add_pod)
                (added_pod-IsWellFormed c pod (NodeInfo.add_pod ni pod)
                  (add_pod-IsNamed pod.node_name ni pod (w.nodes pod.node_name ni e)) w)
        ])
      ])
    ])
  ]

  pub delete_pod-IsWellFormed :
      (c : ScheduleCache) (pod : Pod) → IsWellFormed c → IsWellFormed (delete_pod c pod).0
  unfolding delete_pod
  delete_pod-IsWellFormed c pod w = elim (Bool-cases (is_empty pod.node_name)) [
    | inl h ↦ rw h w
    | inr h ↦ rw h (elim (Bool-cases (is_binding_board pod)) [
      | inr k ↦ rw k w
      | inl k ↦ rw k (elim (Option-cases (lookup Text_discrete pod.node_name c.node_cache)) [
        | inl e ↦ rw (e, delete_pod) w
        | inr (ni, e) ↦
            rw (e, delete_pod)
              (deleted_pod-IsWellFormed c pod (NodeInfo.delete_pod ni pod)
                (delete_pod-IsNamed pod.node_name ni pod (w.nodes pod.node_name ni e)) w)
      ])
    ])
  ]

  -- After an update, Allocatable shares only boards of the new capacity.
  updated_node-shares :
      (old_ni new_ni : NodeInfo) (b : ℤ)
      → (updated_node old_ni new_ni).shares_total b ≡ true
      → has_key ℤ_discrete b new_ni.total ≡ true
  unfolding updated_node
  updated_node-shares old_ni new_ni b h =
      elim (Result-cases (difference_from_superset new_ni.total old_ni.requested)) [
        | inl (d, e) ↦ ground (arith, rw (e, updated_node) at h)
        | inr (x, e) ↦ absurd (false≢true (rw (e, updated_node) at h))
      ]

  pub update_node-IsWellFormed :
      (c : ScheduleCache) (old_node new_node : Node) (pods : List Pod)
      → IsWellFormed c
      → IsWellFormed (update_node c old_node new_node pods).0
  unfolding update_node updated_node
  update_node-IsWellFormed c old_node new_node pods w =
      let old_ni = new_node_info old_node pods in
      let new_ni = new_node_info new_node pods in
      let n = new_node_info-IsNamed new_node pods in
      elim (Bool-cases (Topo.equal old_ni.total new_ni.total)) [
        | inl h ↦ rw h w
        | inr h ↦ rw h (
            with_node-IsWellFormed c new_node.name (updated_node old_ni new_ni)
              (record {
                named = n.named;
                boards = n.boards;
                orins = n.orins;
                shared = λ u b h s. updated_node-shares old_ni new_ni b s;
                keyed = n.keyed;
              })
              w)
      ]

  pub delete_node-IsWellFormed :
      (c : ScheduleCache) (node : Node) → IsWellFormed c → IsWellFormed (delete_node c node).0
  unfolding delete_node
  delete_node-IsWellFormed c node w =
      elim (Bool-cases (has_key Text_discrete node.name c.node_cache)) [
        | inr h ↦ rw h w
        | inl h ↦ rw h (record {
          distinct = delete-Distinct Text_discrete node.name c.node_cache w.distinct;
          nodes = λ j nj e.
              let e' = sym (lookup-delete Text_discrete node.name j c.node_cache) ∙ e in
              elim (Text_discrete j node.name) [
                | yes p ↦
                    absurd
                      (Option.none-ne-some nj (sym (if_pos (Text_discrete j node.name) p _ _) ∙ e'))
                | no p ↦ w.nodes j nj (sym (if_neg (Text_discrete j node.name) p _ _) ∙ e')
              ];
          known = w.known;
        })
      ]

  pub assume_pod-IsWellFormed :
      (c : ScheduleCache) (pod : Pod) (node : Text)
      → IsWellFormed c
      → IsWellFormed (assume_pod c pod node).0
  unfolding assume_pod
  assume_pod-IsWellFormed c pod node w =
      elim (Option-cases (lookup Text_discrete node c.node_cache)) [
        | inl e ↦ rw (e, assume_pod) w
        | inr (ni, e) ↦
            rw (e, assume_pod)
              (elim (Bool-cases (has_key Text_discrete pod.uid c.pod_maps)) [
                | inl l ↦ rw l w
                | inr l ↦ rw l (
                    assumed_pod-IsWellFormed c pod node (NodeInfo.add_pod ni pod)
                      (add_pod-IsNamed node ni pod (w.nodes node ni e)) w)
              ])
      ]

  pub forget_pod-IsWellFormed :
      (c : ScheduleCache) (pod : Pod) (node : Text)
      → IsWellFormed c
      → IsWellFormed (forget_pod c pod node).0
  unfolding forget_pod
  forget_pod-IsWellFormed c pod node w =
      elim (Option-cases (lookup Text_discrete node c.node_cache)) [
        | inl e ↦ rw (e, forget_pod) w
        | inr (ni, e) ↦
            rw (e, forget_pod)
              (elim (Bool-cases (has_key Text_discrete pod.uid c.pod_maps)) [
                | inr l ↦ rw l w
                | inl l ↦ rw l (
                    forgotten_pod-IsWellFormed c node (NodeInfo.delete_pod ni pod)
                      (delete_pod-IsNamed node ni pod (w.nodes node ni e)) w)
              ])
      ]
