-- ===== src/Manager/Bind/Attempt.antt =====
-- The first attempt of `Bind`: what holds after it succeeds, and after its update fails.
use orin_device_system.Common.{
  ℤ_discrete, Option, none, some, true, false, Text, Text_discrete, has_key, ok, inl, inr, if_neg,
  ◌≡◌, ◌≢◌, ◌⊎◌, refl, sym, ◌∙◌, subst, ap,
}
use mathlib.Core.Option
use orin_device_system.Common.Sets.{IntSets, StringSets}
use orin_device_system.Names.RoundTrip.{IsInt64}
use orin_device_system.Allocator.{done, panic, AllocatorResult, allocate, board_id_not_fount}
use orin_device_system.Pods.{Pod, board_annotation, add_pod_bind_annotation, build_request_orin_set}
use orin_device_system.Pods.Annotations.{bind_board-add}
use orin_device_system.NodeInfo.{NodeInfo}
use orin_device_system.Cache.{ScheduleCache, CacheError, assume_pod, forget_pod, get_node}
use orin_device_system.Cache.Effects.{knows, Holds, assume_pod-Holds, forget_pod-unannotated}
use orin_device_system.Manager.{pod_allocator}
use orin_device_system.Manager.Bind.{
  Api, BindError, api_error, retries_failed, Retry, BindState, get_pod_from_apiserver, after_update,
  after_assume, bind_to, bind_found, with_pod_found, bind_attempt, after_bind, after_retries, bind,
}
use orin_device_system.Manager.Bind.Known.{get_pod-uid, retry-refused}

module _ ⦃S : IntSets⦄ ⦃T : StringSets⦄ (api : Api) where
  open api use {World, ApiError, get_pod, update_pod, bind_pod}

  module _ (w : World) (c : ScheduleCache) (node name namespace pod_uid : Text) where
    -- The way of an attempt up to its update: the pod is fetched, its node is cached and does not
    -- have the pod yet, a board is chosen, and the reservation succeeds.
    pub record Assumes : Type 0 where
      pub pod : Pod
      pub world : World
      pub fetched : get_pod_from_apiserver api w name namespace pod_uid ≡ (world, ok pod)
      pub info : NodeInfo
      pub cached : get_node c node ≡ some info
      pub unknown : has_key Text_discrete pod.uid info.pods ≡ false
      pub res : AllocatorResult
      pub chosen :
          allocate (pod_allocator pod) info.allocatable (build_request_orin_set pod) ≡ done res
      pub proper : res.board_id ≢ board_id_not_fount
      pub int64 : IsInt64 res.board_id
      pub assumed : (assume_pod c (add_pod_bind_annotation pod res.board_id) node).1 ≡ none

    -- The annotated copy that is written to the API server.
    abbrev pub bound_pod : Assumes → Pod
    bound_pod a = add_pod_bind_annotation a.pod a.res.board_id

    abbrev pub reserved_cache : Assumes → ScheduleCache
    reserved_cache a = (assume_pod c (bound_pod a) node).0

    after_assume-none :
        (w' : World) (r : ScheduleCache × Option CacheError) (pod new_pod : Pod)
        → r.1 ≡ none
        → after_assume api w' r node pod new_pod
          ≡ after_update api (update_pod w' new_pod) r.0 node pod new_pod
    unfolding after_assume
    after_assume-none w' (c', some e) pod new_pod h = absurd (Option.some-ne-none e h)
    after_assume-none w' (c', none) pod new_pod h = refl

    -- Such an attempt ends as its update does.
    attempt-after_update :
        (a : Assumes) (previous : Option Pod)
        → bind_attempt api node name namespace pod_uid
            (record { world = w; cache = c; new_pod = previous })
          ≡ done (
              after_update api
                (update_pod a.world (bound_pod a))
                (reserved_cache a)
                node
                a.pod
                (bound_pod a))
    unfolding bind_attempt with_pod_found bind_found bind_to
    attempt-after_update a previous =
        let none_fits = ℤ_discrete a.res.board_id board_id_not_fount in
        ap (λ r. with_pod_found api r c previous node) a.fetched
        ∙ rw (a.cached, bind_found)
            (rw (a.chosen, bind_found)
              (ap done (
                if_neg none_fits a.proper _ _
                ∙ after_assume-none a.world (assume_pod c (bound_pod a) node) a.pod (bound_pod a)
                    a.assumed)))

    reserved-Holds :
        (a : Assumes) → Holds (reserved_cache a) node a.info (bound_pod a) a.res.board_id
    unfolding add_pod_bind_annotation
    reserved-Holds a =
        assume_pod-Holds c (bound_pod a) node a.info a.res.board_id a.cached
          (bind_board-add a.pod a.res.board_id a.int64).0 a.unknown a.assumed

    get_pod-bound : (a : Assumes) → a.pod.uid ≡ pod_uid
    get_pod-bound a = get_pod-uid api w name namespace pod_uid (ap (λ r. r.1) a.fetched)

    after_update-none :
        (u : World × Option ApiError) (c' : ScheduleCache) (pod new_pod : Pod)
        → u.1 ≡ none
        → after_update api u c' node pod new_pod
          ≡ (record { world = u.0; cache = c'; new_pod = some new_pod }, none)
    unfolding after_update
    after_update-none (w', none) c' pod new_pod h = refl
    after_update-none (w', some e) c' pod new_pod h = absurd (Option.some-ne-none e h)

    after_bind-none :
        (u : World × Option ApiError) (c' : ScheduleCache) (p : Option Pod)
        → u.1 ≡ none
        → after_bind api u c' p node ≡ done (record { world = u.0; cache = c'; new_pod = p }, none)
    unfolding after_bind
    after_bind-none (w', none) c' p h = refl
    after_bind-none (w', some e) c' p h = absurd (Option.some-ne-none e h)

    -- If the first attempt assumes the pod and both the update and the binding succeed, then `Bind`
    -- returns no error, and in the cache it leaves, the node has the requested orins of the chosen
    -- board reserved and the cache knows the annotated pod.
    pub bind-Holds :
        (retry : Retry) (a : Assumes)
        → (update_pod a.world (bound_pod a)).1 ≡ none
        → (bind_pod (update_pod a.world (bound_pod a)).0 namespace name pod_uid node).1 ≡ none
        → (bind api retry w c node name namespace pod_uid
            ≡ done (
              record {
                world =
                    (bind_pod (update_pod a.world (bound_pod a)).0 namespace name pod_uid node).0;
                cache = reserved_cache a;
                new_pod = some (bound_pod a);
              },
              none,
            ))
          × Holds (reserved_cache a) node a.info (bound_pod a) a.res.board_id
    unfolding bind after_retries
    bind-Holds retry a updated bound =
        let s : BindState api = record { world = w; cache = c; new_pod = none } in
        let u = update_pod a.world (bound_pod a) in
        let attempt =
          attempt-after_update a none
          ∙ ap done (after_update-none u (reserved_cache a) a.pod (bound_pod a) updated) in
        let all_attempts =
          retry.retry_success 2 (bind_attempt api node name namespace pod_uid) s attempt in
        (
          rw (a.cached, bind)
              (rw all_attempts (
                after_bind-none (bind_pod u.0 namespace name pod_uid node) (reserved_cache a)
                  (some (bound_pod a)) bound)),
          reserved-Holds a,
        )

    after_update-some :
        (u : World × Option ApiError) (c' : ScheduleCache) (pod new_pod : Pod) (e : ApiError)
        → u.1 ≡ some e
        → after_update api u c' node pod new_pod ≡ (
          record { world = u.0; cache = (forget_pod c' pod node).0; new_pod = some new_pod },
          some (api_error e),
        )
    unfolding after_update
    after_update-some (w', none) c' pod new_pod e h = absurd (Option.some-ne-none e (sym h))
    after_update-some (w', some e') c' pod new_pod e h = cc

    -- If the first attempt assumes a pod that came without the annotation, and its update fails,
    -- then `Bind` panics or returns an error; and in the cache that it leaves when it returns, the
    -- node still requests the pod's orins on the chosen board, and the cache still knows the pod.
    pub bind-leaks :
        (retry : Retry) (a : Assumes) (e : ApiError)
        → board_annotation a.pod ≡ none
        → (update_pod a.world (bound_pod a)).1 ≡ some e
        → let o = bind api retry w c node name namespace pod_uid in
          (o ≡ panic)
          ⊎ ((t : BindState api) × (why : BindError ApiError) × (o ≡ done (t, some why))
              × Holds t.cache node a.info (bound_pod a) a.res.board_id)
    unfolding bind after_retries add_pod_bind_annotation
    bind-leaks retry a e bare failed =
        let s : BindState api = record { world = w; cache = c; new_pod = none } in
        let u = update_pod a.world (bound_pod a) in
        let f = bind_attempt api node name namespace pod_uid in
        let attempt =
          attempt-after_update a none
          ∙ ap done (after_update-some u (reserved_cache a) a.pod (bound_pod a) e failed) in
        let again = retry.retry_again 1 f s attempt in
        let held = reserved-Holds a in
        let kept =
          forget_pod-unannotated (reserved_cache a) a.pod node held.info held.cached held.known
            bare in
        let forgotten : BindState api = record {
          world = u.0;
          cache = (forget_pod (reserved_cache a) a.pod node).0;
          new_pod = some (bound_pod a);
        } in
        elim (retry-refused api node name namespace pod_uid retry 1 forgotten
          (subst (λ v. knows forgotten.cache v ≡ true) (get_pod-bound a) kept.1)) [
            | inl p ↦ rw (a.cached, bind) (inl (rw (again ∙ p) refl))
            | inr (t, d, same) ↦ inr (
              t,
              retries_failed,
              rw (a.cached, bind) (rw (again ∙ d) refl),
              subst (λ c'. Holds c' node a.info (bound_pod a) a.res.board_id) (sym same)
                  (record {
                    info = held.info;
                    cached = kept.0;
                    reserved = held.reserved;
                    known = kept.1;
                  }),
            )
          ]
