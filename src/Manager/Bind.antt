-- ===== src/Manager/Bind.antt =====
-- `Bind` of pkg/scheduler/manager/manager.go: choose a board, reserve it in the cache, write it to
-- the API server, and undo what was done if that fails. The API server and `retry.Do` are
-- parameters. No other call of the cache comes between the steps of one `Bind`.
pub mod Known
pub mod Attempt
pub mod Success
pub mod Filtered
use orin_device_system.Common.{
  ℕ, suc, zero, ℤ, ℤ_discrete, List, [], ◌∷◌, Option, none, some, Bool, true, false, Text,
  Text_discrete, has_key, Result, ok, err, ite, if◌then◌else◌, ◌≡◌,
}
use orin_device_system.Common.Sets.{IntSets, StringSets}
use orin_device_system.Allocator.{
  AllocatorResult, Outcome, done, panic, allocate, board_id_not_fount,
}
use orin_device_system.Pods.{
  Pod, add_pod_bind_annotation, remove_pod_bind_annotation, build_request_orin_set,
}
use orin_device_system.NodeInfo.{NodeInfo}
use orin_device_system.Cache.{ScheduleCache, CacheError, get_node, assume_pod, forget_pod}
use orin_device_system.Manager.{pod_allocator}

-- What `Bind` calls of the API server, whose state is `World`; `some e` is an error.
pub record Api : Type 1 where
  pub World : Type 0
  pub ApiError : Type 0
  pub get_pod : World → Text → Text → World × Result ApiError Pod
  pub update_pod : World → Pod → World × Option ApiError
  pub bind_pod : World → Text → Text → Text → Text → World × Option ApiError

pub data BindError (E : Type 0) : Type 0 where
  bind_node_not_found wrong_uid no_board : BindError E
  retries_failed : BindError E
  cache_error : CacheError → BindError E
  api_error : E → BindError E

-- `retry.Do` with `retry.Attempts(n)`: it calls the function until a call succeeds, `n` times at
-- most. What the joined error says is left out: `false` stands for an error.
pub record Retry : Type 1 where
  pub retry_do : {St E : Type 0} → ℕ → (St → Outcome (St × Option E)) → St → Outcome (St × Bool)
  pub retry_panic :
      {St E : Type 0} (n : ℕ) (f : St → Outcome (St × Option E)) (s : St)
      → f s ≡ panic
      → retry_do (suc n) f s ≡ panic
  pub retry_success :
      {St E : Type 0} (n : ℕ) (f : St → Outcome (St × Option E)) (s : St) {t : St}
      → f s ≡ done (t, none)
      → retry_do (suc n) f s ≡ done (t, true)
  pub retry_last :
      {St E : Type 0} (f : St → Outcome (St × Option E)) (s : St) {t : St} {e : E}
      → f s ≡ done (t, some e)
      → retry_do 1 f s ≡ done (t, false)
  pub retry_again :
      {St E : Type 0} (n : ℕ) (f : St → Outcome (St × Option E)) (s : St) {t : St} {e : E}
      → f s ≡ done (t, some e)
      → retry_do (suc (suc n)) f s ≡ retry_do (suc n) f t

module _ ⦃S : IntSets⦄ ⦃T : StringSets⦄ (api : Api) where
  open api use {World, ApiError, get_pod, update_pod, bind_pod}

  -- What `Bind` changes: the API server, the cache, and its variable `newPod`.
  pub record BindState : Type 0 where
    pub world : World
    pub cache : ScheduleCache
    pub new_pod : Option Pod

  -- `GetPodFromApiserver` asks a second time if the UID is not the expected one.
  unfoldable pub get_pod_again :
      World × Result ApiError Pod → Text → World × Result (BindError ApiError) Pod
  get_pod_again (w, err e) pod_uid = (w, err (api_error e))
  get_pod_again (w, ok pod) pod_uid =
      (w, ite (Text_discrete pod.uid pod_uid) (ok pod) (err wrong_uid))

  unfoldable pub get_pod_first :
      World × Result ApiError Pod → Text → Text → Text → World × Result (BindError ApiError) Pod
  get_pod_first (w, err e) name namespace pod_uid = (w, err (api_error e))
  get_pod_first (w, ok pod) name namespace pod_uid =
      ite (Text_discrete pod.uid pod_uid) (w, ok pod)
        (get_pod_again (get_pod w name namespace) pod_uid)

  unfoldable pub get_pod_from_apiserver :
      World → Text → Text → Text → World × Result (BindError ApiError) Pod
  get_pod_from_apiserver w name namespace pod_uid =
      get_pod_first (get_pod w name namespace) name namespace pod_uid

  -- `bindPod`, after its call of `Update`: on an error the pod is forgotten, by the copy that has no
  -- annotation yet, and an error of `ForgetPod` is only logged.
  unfoldable pub after_update :
      World × Option ApiError
      → ScheduleCache
      → Text
      → Pod
      → Pod
      → BindState × Option (BindError ApiError)
  after_update (w, none) c node pod new_pod =
      (record { world = w; cache = c; new_pod = some new_pod }, none)
  after_update (w, some e) c node pod new_pod = (
    record { world = w; cache = (forget_pod c pod node).0; new_pod = some new_pod },
    some (api_error e),
  )

  -- `bindPod`, after its call of `AssumePod`
  unfoldable pub after_assume :
      World
      → ScheduleCache × Option CacheError
      → Text
      → Pod
      → Pod
      → BindState × Option (BindError ApiError)
  after_assume w (c, some e) node pod new_pod =
      (record { world = w; cache = c; new_pod = some new_pod }, some (cache_error e))
  after_assume w (c, none) node pod new_pod = after_update (update_pod w new_pod) c node pod new_pod

  -- `bindPod`, after the choice of a board
  unfoldable pub bind_to :
      World
      → ScheduleCache
      → Option Pod
      → Text
      → Pod
      → AllocatorResult
      → BindState × Option (BindError ApiError)
  bind_to w c previous node pod res =
      let new_pod = add_pod_bind_annotation pod res.board_id in
      ite (ℤ_discrete res.board_id board_id_not_fount)
        (record { world = w; cache = c; new_pod = previous }, some no_board)
        (after_assume w (assume_pod c new_pod node) node pod new_pod)

  -- `bindPod`, with the pod at hand. `ni` is the node that `Bind` found before its first attempt, a
  -- pointer into the cache.
  unfoldable pub bind_found :
      World
      → ScheduleCache
      → Option Pod
      → Text
      → Pod
      → Outcome (BindState × Option (BindError ApiError))
  bind_found w c previous node pod = elim (get_node c node) [
    | none ↦ done (record { world = w; cache = c; new_pod = previous }, some bind_node_not_found)
    | some ni ↦ (elim (allocate (pod_allocator pod) ni.allocatable (build_request_orin_set pod)) [
      | panic ↦ panic
      | done res ↦ done (bind_to w c previous node pod res)
    ])
  ]

  unfoldable pub with_pod_found :
      World × Result (BindError ApiError) Pod
      → ScheduleCache
      → Option Pod
      → Text
      → Outcome (BindState × Option (BindError ApiError))
  with_pod_found (w, err e) c previous node =
      done (record { world = w; cache = c; new_pod = previous }, some e)
  with_pod_found (w, ok pod) c previous node = bind_found w c previous node pod

  -- the closure `bindPod`
  unfoldable pub bind_attempt :
      Text → Text → Text → Text → BindState → Outcome (BindState × Option (BindError ApiError))
  bind_attempt node name namespace pod_uid s =
      with_pod_found (get_pod_from_apiserver s.world name namespace pod_uid) s.cache s.new_pod node

  -- `Bind`, after a failed update that was to take the annotation off again
  unfoldable pub recovered :
      World × Option ApiError
      → ApiError
      → ScheduleCache
      → Option Pod
      → BindState × Option (BindError ApiError)
  recovered (w, none) e c p = (record { world = w; cache = c; new_pod = p }, some (api_error e))
  recovered (w, some e') e c p = (record { world = w; cache = c; new_pod = p }, some (api_error e'))

  -- `Bind`, after its call of the API server's `Bind`; `newPod` was set by the last attempt, and a
  -- nil one would be dereferenced.
  unfoldable pub after_bind :
      World × Option ApiError
      → ScheduleCache
      → Option Pod
      → Text
      → Outcome (BindState × Option (BindError ApiError))
  after_bind (w, none) c new_pod node =
      done (record { world = w; cache = c; new_pod = new_pod }, none)
  after_bind (w, some e) c none node = panic
  after_bind (w, some e) c (some p) node =
      done
        (recovered (update_pod w (remove_pod_bind_annotation p)) e (forget_pod c p node).0 (some p))

  unfoldable pub after_retries :
      Outcome (BindState × Bool)
      → Text
      → Text
      → Text
      → Text
      → Outcome (BindState × Option (BindError ApiError))
  after_retries panic node name namespace pod_uid = panic
  after_retries (done (s, false)) node name namespace pod_uid = done (s, some retries_failed)
  after_retries (done (s, true)) node name namespace pod_uid =
      after_bind (bind_pod s.world namespace name pod_uid node) s.cache s.new_pod node

  -- manager.Bind
  unfoldable pub bind :
      Retry
      → World
      → ScheduleCache
      → Text
      → Text
      → Text
      → Text
      → Outcome (BindState × Option (BindError ApiError))
  bind retry w c node name namespace pod_uid =
      let s : BindState = record { world = w; cache = c; new_pod = none } in
      elim (get_node c node) [
        | none ↦ done (s, some bind_node_not_found)
        | some ni ↦
            after_retries (retry.retry_do 3 (bind_attempt node name namespace pod_uid) s) node name
              namespace pod_uid
      ]
