-- ===== src/Controller/Worker.antt =====
-- The worker of the pod queue: which keys it takes, and when it stops.
use orin_device_system.Common.{
  List, [], ◌∷◌, ◌++◌, Option, none, some, Bool, true, false, Text, ◌≡◌, ◌⊎◌, refl, ap, sym,
  Bool-cases, Option-cases, arith, Result, ok, err, inl, inr,
}
use mathlib.Core.Option
use orin_device_system.Common.Sets.{IntSets, StringSets}
use orin_device_system.Pods.{Pod, is_completed_pod, is_empty}
use orin_device_system.Cache.{ScheduleCache, CacheError}
use orin_device_system.Controller.{
  Informers, QueueCall, queue_add, queue_forget, queue_done, queue_add_rate_limited, SyncError,
  ListerError, invalid_key, sync_cache_error, sync_pod, sync_found, sync_assigned, assign_pod,
  finish_item, process_next_work_item, run_worker,
}

-- The keys that calls mark as done, in their order.
unfoldable pub done_keys : List QueueCall → List Text
done_keys [] = []
done_keys (queue_done key ∷ calls) = key ∷ done_keys calls
done_keys (queue_add _ ∷ calls) = done_keys calls
done_keys (queue_forget _ ∷ calls) = done_keys calls
done_keys (queue_add_rate_limited _ ∷ calls) = done_keys calls

pub done_keys-append :
    (xs ys : List QueueCall) → done_keys (xs ++ ys) ≡ done_keys xs ++ done_keys ys
unfolding done_keys
done_keys-append [] ys = refl
done_keys-append (queue_done key ∷ xs) ys = ap (λ ks. key ∷ ks) (done_keys-append xs ys)
done_keys-append (queue_add key ∷ xs) ys = done_keys-append xs ys
done_keys-append (queue_forget key ∷ xs) ys = done_keys-append xs ys
done_keys-append (queue_add_rate_limited key ∷ xs) ys = done_keys-append xs ys

-- The calls for keys that each failed: back to the queue, and done.
unfoldable pub retries : List Text → List QueueCall
retries [] = []
retries (key ∷ keys) = queue_add_rate_limited key ∷ queue_done key ∷ retries keys

module _ ⦃S : IntSets⦄ ⦃T : StringSets⦄ (informers : Informers) where
  finish_item-done :
      (key : Text) (r : ScheduleCache × Bool × Option SyncError)
      → done_keys (finish_item informers key r).2 ≡ key ∷ []
  unfolding finish_item done_keys
  finish_item-done key (c, true, none) = refl
  finish_item-done key (c, false, none) = refl
  finish_item-done key (c, forget, some e) = refl

  sync_assigned-forgets :
      (r : ScheduleCache × Option CacheError)
      → (sync_assigned informers r).2 ≡ none
      → (sync_assigned informers r).1 ≡ true
  unfolding sync_assigned
  sync_assigned-forgets (c, none) h = refl
  sync_assigned-forgets (c, some e) h = absurd (Option.some-ne-none (sync_cache_error e) h)

  sync_found-forgets :
      (c : ScheduleCache) (found : Result ListerError Pod)
      → (sync_found informers c found).2 ≡ none
      → (sync_found informers c found).1 ≡ true
  unfolding sync_found
  sync_found-forgets c (err e) h = refl
  sync_found-forgets c (ok pod) h = elim (Bool-cases (is_completed_pod pod)) [
    | inl completed ↦ rw completed refl
    | inr completed ↦ elim (Bool-cases (is_empty pod.node_name)) [
      | inl empty ↦ rw (completed, empty) refl
      | inr empty ↦
          rw (completed, empty)
            (sync_assigned-forgets (assign_pod informers c pod) (rw (completed, empty) at h))
    ]
  ]

  -- A key that is synced without an error is forgotten by the rate limiter.
  sync_pod-forgets :
      (c : ScheduleCache) (key : Text)
      → (sync_pod informers c key).2 ≡ none
      → (sync_pod informers c key).1 ≡ true
  unfolding sync_pod
  sync_pod-forgets c key h = elim (Option-cases (informers.split_meta_namespace_key key)) [
    | inl e ↦ absurd (Option.some-ne-none invalid_key (rw (e, sync_pod) at h))
    | inr ((ns, name), e) ↦
        rw (e, sync_pod) (sync_found-forgets c (informers.get_pod ns name) (rw (e, sync_pod) at h))
  ]

  finish_item-synced :
      (key : Text) (r : ScheduleCache × Bool × Option SyncError)
      → r.1 ≡ true
      → r.2 ≡ none
      → finish_item informers key r ≡ (r.0, false, queue_forget key ∷ queue_done key ∷ [])
  unfolding finish_item
  finish_item-synced key (c, true, none) f h = refl
  finish_item-synced key (c, false, none) f h = ground (arith, f)
  finish_item-synced key (c, forget, some e) f h = absurd (Option.some-ne-none e h)

  finish_item-failed :
      (key : Text) (r : ScheduleCache × Bool × Option SyncError) (e : SyncError)
      → r.2 ≡ some e
      → finish_item informers key r ≡ (r.0, true, queue_add_rate_limited key ∷ queue_done key ∷ [])
  unfolding finish_item
  finish_item-failed key (c, forget, none) e h = absurd (Option.some-ne-none e (sym h))
  finish_item-failed key (c, forget, some e') e h = refl

  -- Every key that the worker takes is marked as done once and in order, and the other keys are left.
  pub run_worker-done :
      (c : ScheduleCache) (keys : List Text)
      → let r = run_worker informers c keys in done_keys r.2 ++ r.1 ≡ keys
  unfolding run_worker process_next_work_item done_keys
  run_worker-done c [] = refl
  run_worker-done c (key ∷ keys) =
      let item = finish_item informers key (sync_pod informers c key) in
      let one : done_keys item.2 ≡ key ∷ [] = finish_item-done key (sync_pod informers c key) in
      let rest = run_worker informers item.0 keys in
      elim (Bool-cases item.1) [
        | inl h ↦ rw h (
            rw (done_keys-append item.2 rest.2)
              (rw one (ap (λ ks. key ∷ ks) (run_worker-done item.0 keys))))
        | inr h ↦ rw h (rw one refl)
      ]

  -- Syncing the keys one after the other fails for each of them, and ends with the second cache.
  pub data AllFail : ScheduleCache → List Text → ScheduleCache → Type 0 where
    no_keys : {c : ScheduleCache} → AllFail c [] c
    one_fails :
        {c c' : ScheduleCache} {key : Text} {keys : List Text} (e : SyncError)
        → (sync_pod informers c key).2 ≡ some e
        → AllFail (sync_pod informers c key).0 keys c'
        → AllFail c (key ∷ keys) c'

  -- How the worker stops: at the first key that is synced without an error.
  pub record StopsAt (c : ScheduleCache) (keys : List Text)
      (r : ScheduleCache × List Text × List QueueCall) : Type 0 where
    pub failed : List Text
    pub key : Text
    pub before : ScheduleCache
    pub taken : keys ≡ failed ++ key ∷ r.1
    pub fail : AllFail c failed before
    pub synced : (sync_pod informers before key).2 ≡ none
    pub cache : r.0 ≡ (sync_pod informers before key).0
    pub calls : r.2 ≡ retries failed ++ queue_forget key ∷ queue_done key ∷ []

  -- Of the keys that the queue gives out until it is shut down, either each one fails, and the worker
  -- sends every key back to the queue, marks it as done and leaves none; or the worker sends back and
  -- marks the keys that fail before the first key that is synced without an error, has that one
  -- forgotten by the rate limiter and marked, and stops there: the keys behind it are left, and the
  -- cache is the one that syncing this key made.
  pub run_worker-stops :
      (c : ScheduleCache) (keys : List Text)
      → let r = run_worker informers c keys in
        (AllFail c keys r.0 × (r.1 ≡ []) × (r.2 ≡ retries keys)) ⊎ StopsAt c keys r
  unfolding run_worker process_next_work_item retries
  run_worker-stops c [] = inl (no_keys, refl, refl)
  run_worker-stops c (key ∷ keys) = elim (Option-cases (sync_pod informers c key).2) [
    | inl h ↦ rw (finish_item-synced key (sync_pod informers c key) (sync_pod-forgets c key h) h) (
        inr (record {
          failed = [];
          key = key;
          before = c;
          taken = refl;
          fail = no_keys;
          synced = h;
          cache = refl;
          calls = refl;
        }))
    | inr (e, h) ↦
        let c' = (sync_pod informers c key).0 in
        rw (finish_item-failed key (sync_pod informers c key) e h)
          (elim (run_worker-stops c' keys) [
            | inl (fail, left, calls) ↦ inl (
              one_fails e h fail,
              left,
              ap (λ k. queue_add_rate_limited key ∷ queue_done key ∷ k) calls,
            )
            | inr s ↦ inr (record {
              failed = key ∷ s.failed;
              key = s.key;
              before = s.before;
              taken = ap (λ k. key ∷ k) s.taken;
              fail = one_fails e h s.fail;
              synced = s.synced;
              cache = s.cache;
              calls = ap (λ k. queue_add_rate_limited key ∷ queue_done key ∷ k) s.calls;
            })
          ])
  ]
