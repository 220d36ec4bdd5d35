-- ===== src/Controller/Completion.antt =====
-- A pod that completes: from the update event to the release of its orins.
use orin_device_system.Common.{
  ℤ, ℤ_discrete, [], ◌∷◌, Option, none, some, true, false, Text, Text_discrete, has_key,
  lookup-insert, lookup-delete, ok, ite, if_pos, if_neg, ◌≡◌, ◌≢◌, refl, sym, ◌∙◌, subst, arith,
}
use mathlib.Core.Option
use orin_device_system.Common.Sets.{IntSets, StringSets}
use orin_device_system.Topo.Views.{has_orin}
use orin_device_system.Pods.{
  Pod, build_request_orin_set, is_binding_board, is_completed_pod, is_empty,
}
use orin_device_system.Pods.Annotations.{bind_board}
use orin_device_system.NodeInfo
use orin_device_system.NodeInfo.{NodeInfo, NodeInfoError}
use orin_device_system.NodeInfo.Invariant.{asks}
use orin_device_system.NodeInfo.Release.{
  Released, delete_pod-Released, delete_pod-release, release-succeeds,
}
use orin_device_system.Cache.{ScheduleCache, delete_pod, deleted_pod, get_node, known_pod}
use orin_device_system.Cache.Effects.{knows, Holds}
use orin_device_system.Controller.{
  Informers, pod_object, queue_add, queue_forget, queue_done, enqueue, update_pod_in_cache,
  sync_pod, sync_found, finish_item, process_next_work_item,
}

module _ ⦃S : IntSets⦄ ⦃T : StringSets⦄ where
  -- What `DeletePod` leaves of a pod.
  pub record IsGone (c : ScheduleCache) (before : NodeInfo) (pod : Pod) (b : ℤ) : Type 0 where
    pub info : NodeInfo
    pub cached : get_node c pod.node_name ≡ some info
    pub released : Released before info pod b
    pub unknown : knows c pod.uid ≡ false

  bind_board-binding : (pod : Pod) (b : ℤ) → bind_board pod ≡ some b → is_binding_board pod ≡ true
  unfolding bind_board is_binding_board
  bind_board-binding pod b e = ground arith

  deleted_pod-gone :
      (c : ScheduleCache) (pod : Pod) (r : NodeInfo × Option NodeInfoError)
      → r.1 ≡ none
      → knows c pod.uid ≡ true
      → (get_node (deleted_pod c pod r).0 pod.node_name ≡ some r.0)
        × (knows (deleted_pod c pod r).0 pod.uid ≡ false)
  unfolding deleted_pod get_node
  deleted_pod-gone c pod (ni, some e) h k = absurd (Option.some-ne-none e h)
  deleted_pod-gone c pod (ni, none) h k = rw k (
    lookup-insert Text_discrete pod.node_name pod.node_name ni c.node_cache
        ∙ if_pos (Text_discrete pod.node_name pod.node_name) refl _ _,
    ground (arith, lookup-delete Text_discrete pod.uid pod.uid c.pod_maps),
  )

  delete_pod-deleted :
      (c : ScheduleCache) (pod : Pod) (ni : NodeInfo)
      → is_empty pod.node_name ≡ false
      → is_binding_board pod ≡ true
      → get_node c pod.node_name ≡ some ni
      → delete_pod c pod ≡ deleted_pod c pod (NodeInfo.delete_pod ni pod)
  unfolding delete_pod get_node
  delete_pod-deleted c pod ni named binding cached =
      rw named (rw binding (rw (cached, delete_pod) refl))

  -- The pod as it is when it has completed: still bound to the board that was chosen, on the node,
  -- with the requests that it had.
  pub record Completes (pod finished : Pod) (b : ℤ) : Type 0 where
    pub same_uid : finished.uid ≡ pod.uid
    pub same_request : build_request_orin_set finished ≡ build_request_orin_set pod
    pub bound : bind_board finished ≡ some b
    pub named : is_empty finished.node_name ≡ false
    pub completed : is_completed_pod finished ≡ true

  module _ (c : ScheduleCache) (before : NodeInfo) (pod finished : Pod) (b : ℤ)
      (held : Holds c finished.node_name before pod b) (done_pod : Completes pod finished b) where
    there : has_key Text_discrete finished.uid held.info.pods ≡ true
    there = ground (arith, held.reserved.recorded finished.uid, done_pod.same_uid)

    asks_taken : (j o : ℤ) → asks finished b j o ≡ true → has_orin held.info.requested j o ≡ true
    asks_taken j o e =
        let e' : asks pod b j o ≡ true =
          subst (λ s. ite (ℤ_discrete j b) (S.has o s) false ≡ true) done_pod.same_request e in
        held.reserved.taken j o ∙ ground (arith, e')

    released_node : (NodeInfo.delete_pod held.info finished).1 ≡ none
    released_node =
        rw (delete_pod-release held.info finished b done_pod.bound there)
          (release-succeeds held.info finished b held.reserved.board_there asks_taken)

    known_finished : knows c finished.uid ≡ true
    known_finished = subst (λ u. knows c u ≡ true) (sym done_pod.same_uid) held.known

    delete_pod-IsGone : IsGone (delete_pod c finished).0 held.info finished b
    delete_pod-IsGone =
        let binding = bind_board-binding finished b done_pod.bound in
        let step = delete_pod-deleted c finished held.info done_pod.named binding held.cached in
        let (cached, unknown) =
          deleted_pod-gone c finished (NodeInfo.delete_pod held.info finished) released_node
            known_finished in
        rw step (record {
          info = (NodeInfo.delete_pod held.info finished).0;
          cached = cached;
          released =
              delete_pod-Released held.info finished b done_pod.bound there held.reserved.apart
                released_node;
          unknown = unknown;
        })

    -- When a pod that a node holds on a board has completed, with the UID, the board and the
    -- requests that it had, then: the handler of the update puts its key on the queue, if the
    -- resource version changed; and the worker that takes this key, if the lister gives it the
    -- completed pod, forgets the key, takes exactly the pod's orins off the requests of the node,
    -- and leaves a cache that does not know the pod.
    pub completed_pod-IsGone :
        (informers : Informers) (old_pod : Pod) (key ns name : Text)
        → old_pod.uid ≡ pod.uid
        → old_pod.resource_version ≢ finished.resource_version
        → informers.key_func finished ≡ some key
        → informers.split_meta_namespace_key key ≡ some (ns, name)
        → informers.get_pod ns name ≡ ok finished
        → (update_pod_in_cache informers c (pod_object old_pod) (pod_object finished)
            ≡ queue_add key ∷ [])
          × ((process_next_work_item informers c (some key)).2
              ≡ queue_forget key ∷ queue_done key ∷ [])
          × IsGone (process_next_work_item informers c (some key)).0 held.info finished b
    unfolding update_pod_in_cache known_pod enqueue process_next_work_item finish_item sync_pod
        sync_found
    completed_pod-IsGone informers old_pod key ns name same changed keyed split found =
        let binding = bind_board-binding finished b done_pod.bound in
        let known : knows c old_pod.uid ≡ true =
          subst (λ u. knows c u ≡ true) (sym same) held.known in
        (
          if_neg (Text_discrete old_pod.resource_version finished.resource_version) changed _ _
              ∙ rw known (rw done_pod.completed (rw binding (rw (keyed, enqueue) refl))),
          rw (split, sync_pod) (rw (found, sync_found) (rw done_pod.completed refl)),
          rw (split, sync_pod) (rw (found, sync_found) (rw done_pod.completed delete_pod-IsGone)),
        )
