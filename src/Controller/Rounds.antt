-- ===== src/Controller/Rounds.antt =====
-- `Run` of pkg/scheduler/manager/controller.go: a goroutine calls `runWorker` again each second, as
-- `runWorker` returns after a key that was synced without an error. A round is one such call.
use orin_device_system.Common.{
  ℕ, zero, suc, ◌≤◌, List, [], ◌∷◌, ◌++◌, Bool, Text, length, Result, ok, err, if◌then◌else◌, ◌≡◌,
  refl, ap, ◌∙◌, arith, Bool-cases, inl, inr,
}
use orin_device_system.Common.Sets.{IntSets, StringSets}
use orin_device_system.Cache.{ScheduleCache}
use orin_device_system.Controller.{
  Informers, QueueCall, finish_item, sync_pod, process_next_work_item, run_worker,
}
use orin_device_system.Controller.Worker.{done_keys, done_keys-append, run_worker-done}

pub data NewControllerError : Type 0 where
  node_caches_not_synced pod_caches_not_synced : NewControllerError

-- The waits of NewController for its informers, which a stop ends.
unfoldable pub wait_for_caches : Bool → Bool → Result NewControllerError (Unit {0})
wait_for_caches nodes_synced pods_synced =
    if nodes_synced
    then if pods_synced then ok tt else err pod_caches_not_synced
    else err node_caches_not_synced

module _ ⦃S : IntSets⦄ ⦃T : StringSets⦄ (informers : Informers) where
  -- wait.Until(c.runWorker, time.Second, stopCh), with the rounds before the stop
  unfoldable pub wait_until :
      ℕ → ScheduleCache → List Text → ScheduleCache × List Text × List QueueCall
  wait_until zero c keys = (c, keys, [])
  wait_until (suc rounds) c keys =
      let (c', left, calls) = run_worker informers c keys in
      let (c'', left', more) = wait_until rounds c' left in (c'', left', calls ++ more)

  length-run_worker :
      (c : ScheduleCache) (keys : List Text) → length (run_worker informers c keys).1 ≤ length keys
  unfolding run_worker process_next_work_item
  length-run_worker c [] = omega arith
  length-run_worker c (key ∷ keys) =
      let item = finish_item informers key (sync_pod informers c key) in
      elim (Bool-cases item.1) [
        | inl h ↦ rw h (omega (arith, length-run_worker item.0 keys))
        | inr h ↦ rw h (omega arith)
      ]

  run_worker_takes :
      (c : ScheduleCache) (key : Text) (keys : List Text)
      → length (run_worker informers c (key ∷ keys)).1 ≤ length keys
  unfolding run_worker process_next_work_item
  run_worker_takes c key keys =
      let item = finish_item informers key (sync_pod informers c key) in
      elim (Bool-cases item.1) [
        | inl h ↦ rw h (length-run_worker item.0 keys)
        | inr h ↦ rw h (omega arith)
      ]

  run_worker_fits :
      (rounds : ℕ) (c : ScheduleCache) (keys : List Text)
      → length keys ≤ suc rounds
      → length (run_worker informers c keys).1 ≤ rounds
  run_worker_fits rounds c [] h = omega (arith, length-run_worker c [])
  run_worker_fits rounds c (key ∷ keys) h = omega (arith, h, run_worker_takes c key keys)

  -- Although a worker returns after a key that was synced without an error: in as many rounds as
  -- there are keys in the queue, every key is taken and marked as done, once and in order.
  pub wait_until-done :
      (rounds : ℕ) (c : ScheduleCache) (keys : List Text)
      → length keys ≤ rounds
      → let r = wait_until rounds c keys in (r.1 ≡ []) × (done_keys r.2 ≡ keys)
  unfolding wait_until done_keys
  wait_until-done zero c [] h = (refl, refl)
  wait_until-done zero c (key ∷ keys) h = absurd (omega (arith, h))
  wait_until-done (suc rounds) c keys h =
      let r = run_worker informers c keys in
      let (none_left, done) = wait_until-done rounds r.0 r.1 (run_worker_fits rounds c keys h) in
      (
        none_left,
        done_keys-append r.2 (wait_until rounds r.0 r.1).2
            ∙ (ap (λ ks. done_keys r.2 ++ ks) done ∙ run_worker-done informers c keys),
      )
