-- ===== src/Program/Calls.antt =====
-- The calls of pkg/scheduler/manager/cache.go that each handler and worker of the scheduler makes.
use orin_device_system.Common.{
  List, [], ◌∷◌, ◌++◌, Option, none, some, Bool, Text, Result, ok, err, Option-cases, Bool-cases,
  ◌≡◌, inl, inr, refl, sym, ap, ◌∙◌,
}
use orin_device_system.Common.Sets.{IntSets, StringSets}
use orin_device_system.Pods.{Pod, Node, is_completed_pod, is_binding_board, is_empty}
use orin_device_system.Cache.{ScheduleCache, CacheError, delete_pod, get_node}
use orin_device_system.Cache.Calls.{
  CacheCall, call_add_pod, call_delete_pod, call_add_node, call_update_node, call_delete_node, call,
  call_all,
}
use orin_device_system.Controller.{
  InformerObject, pod_object, node_object, deleted_final_state_unknown, other_object, Informers,
  delete_pod_from_cache, add_node_object, update_node_object, delete_node_from_cache,
  with_missing_node, assign_pod, sync_assigned, sync_found, sync_pod, finish_item,
  process_next_work_item, get_active_pod_in_node, SyncError, ListerError,
}

module _ ⦃S : IntSets⦄ ⦃T : StringSets⦄ where
  -- The cache `c'` comes from `c` by calls.
  pub record Called (c c' : ScheduleCache) : Type 0 where
    pub calls : List CacheCall
    pub effect : c' ≡ call_all calls c

  pub uncalled : (c : ScheduleCache) → Called c c
  unfolding call_all
  uncalled c = record { calls = []; effect = refl }

  pub call_all-append :
      (ks ls : List CacheCall) (c : ScheduleCache)
      → call_all (ks ++ ls) c ≡ call_all ls (call_all ks c)
  unfolding call_all
  call_all-append [] ls c = refl
  call_all-append (k ∷ ks) ls c = call_all-append ks ls (call k c)

  pub Called-trans : (c d e : ScheduleCache) → Called c d → Called d e → Called c e
  Called-trans c d e p q = record {
    calls = p.calls ++ q.calls;
    effect = q.effect ∙ (ap (call_all q.calls) p.effect ∙ sym (call_all-append p.calls q.calls c));
  }

  pub called : (k : CacheCall) (c : ScheduleCache) → Called c (call k c)
  unfolding call_all
  called k c = record { calls = k ∷ []; effect = refl }

  delete_pod-Called : (c : ScheduleCache) (pod : Pod) → Called c (delete_pod c pod).0
  unfolding call
  delete_pod-Called c pod = called (call_delete_pod pod) c

  module _ (informers : Informers) (c : ScheduleCache) where
    pub delete_pod_from_cache-Called :
        (obj : InformerObject) → Called c (delete_pod_from_cache informers c obj)
    unfolding delete_pod_from_cache
    delete_pod_from_cache-Called (pod_object pod) = delete_pod-Called c pod
    delete_pod_from_cache-Called (node_object node) = uncalled c
    delete_pod_from_cache-Called other_object = uncalled c
    delete_pod_from_cache-Called (deleted_final_state_unknown (pod_object pod)) =
        delete_pod-Called c pod
    delete_pod_from_cache-Called (deleted_final_state_unknown (node_object node)) = uncalled c
    delete_pod_from_cache-Called (deleted_final_state_unknown other_object) = uncalled c
    delete_pod_from_cache-Called (deleted_final_state_unknown (deleted_final_state_unknown o)) =
        uncalled c

    pub delete_node_from_cache-Called :
        (obj : InformerObject) → Called c (delete_node_from_cache informers c obj)
    unfolding delete_node_from_cache call
    delete_node_from_cache-Called (node_object node) = called (call_delete_node node) c
    delete_node_from_cache-Called (pod_object pod) = uncalled c
    delete_node_from_cache-Called other_object = uncalled c
    delete_node_from_cache-Called (deleted_final_state_unknown (node_object node)) =
        called (call_delete_node node) c
    delete_node_from_cache-Called (deleted_final_state_unknown (pod_object pod)) = uncalled c
    delete_node_from_cache-Called (deleted_final_state_unknown other_object) = uncalled c
    delete_node_from_cache-Called (deleted_final_state_unknown (deleted_final_state_unknown o)) =
        uncalled c

    pub add_node_object-Called : (node : Node) → Called c (add_node_object informers c node)
    unfolding add_node_object call
    add_node_object-Called node = elim (Option-cases node.deletion_timestamp) [
      | inr (t, e) ↦ rw (e, add_node_object) (called (call_delete_node node) c)
      | inl e ↦
          rw (e, add_node_object)
            (called (call_add_node node (get_active_pod_in_node informers node.name)) c)
    ]

    pub update_node_object-Called :
        (old_node new_node : Node) → Called c (update_node_object informers c old_node new_node)
    unfolding update_node_object call
    update_node_object-Called old_node new_node = elim (Option-cases new_node.deletion_timestamp) [
      | inr (t, e) ↦ rw (e, update_node_object) (called (call_delete_node new_node) c)
      | inl e ↦
          rw (e, update_node_object)
            (called
              (call_update_node old_node new_node (get_active_pod_in_node informers new_node.name))
              c)
    ]

    with_missing_node-Called : (pod : Pod) → Called c (with_missing_node informers c pod)
    unfolding with_missing_node call
    with_missing_node-Called pod =
        elim (Option-cases (informers.get_node_from_apiserver pod.node_name)) [
          | inl e ↦ rw (e, with_missing_node) (uncalled c)
          | inr (node, e) ↦
              rw (e, with_missing_node)
                (called (call_add_node node (get_active_pod_in_node informers node.name)) c)
        ]

    assign_pod-Called : (pod : Pod) → Called c (assign_pod informers c pod).0
    unfolding assign_pod call
    assign_pod-Called pod = elim (Bool-cases (is_binding_board pod)) [
      | inr h ↦ rw h (uncalled c)
      | inl h ↦ rw h (elim (Option-cases (get_node c pod.node_name)) [
        | inr (ni, e) ↦ rw (e, assign_pod) (called (call_add_pod pod) c)
        | inl e ↦
            rw (e, assign_pod)
              (Called-trans c (with_missing_node informers c pod) _ (with_missing_node-Called pod)
                (called (call_add_pod pod) (with_missing_node informers c pod)))
      ])
    ]

    sync_assigned-Called :
        (r : ScheduleCache × Option CacheError)
        → Called c r.0
        → Called c (sync_assigned informers r).0
    unfolding sync_assigned
    sync_assigned-Called (d, none) p = p
    sync_assigned-Called (d, some e) p = p

    sync_found-Called : (r : Result ListerError Pod) → Called c (sync_found informers c r).0
    unfolding sync_found
    sync_found-Called (err e) = uncalled c
    sync_found-Called (ok pod) = elim (Bool-cases (is_completed_pod pod)) [
      | inl h ↦ rw h (delete_pod-Called c pod)
      | inr h ↦ rw h (elim (Bool-cases (is_empty pod.node_name)) [
        | inl k ↦ rw k (uncalled c)
        | inr k ↦ rw k (sync_assigned-Called (assign_pod informers c pod) (assign_pod-Called pod))
      ])
    ]

    sync_pod-Called : (key : Text) → Called c (sync_pod informers c key).0
    unfolding sync_pod
    sync_pod-Called key = elim (Option-cases (informers.split_meta_namespace_key key)) [
      | inl e ↦ rw (e, sync_pod) (uncalled c)
      | inr ((ns, name), e) ↦ rw (e, sync_pod) (sync_found-Called (informers.get_pod ns name))
    ]

    finish_item-Called :
        (key : Text) (r : ScheduleCache × Bool × Option SyncError)
        → Called c r.0
        → Called c (finish_item informers key r).0
    unfolding finish_item
    finish_item-Called key (d, forget, none) p = p
    finish_item-Called key (d, forget, some e) p = p

    pub process_next_work_item-Called :
        (key : Option Text) → Called c (process_next_work_item informers c key).0
    unfolding process_next_work_item
    process_next_work_item-Called none = uncalled c
    process_next_work_item-Called (some key) =
        finish_item-Called key (sync_pod informers c key) (sync_pod-Called key)
