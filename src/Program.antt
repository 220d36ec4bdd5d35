-- ===== src/Program.antt =====
-- The scheduler as a whole: the informers that NewController of pkg/scheduler/manager/controller.go
-- sets up, the workers that its Run starts, and the binds of the extender act on one cache, in any
-- order. Each event brings what the listers answer at its time.
pub mod Calls
pub mod Binds
pub mod Safety
use orin_device_system.Common.{
  ℕ, zero, suc, List, [], ◌∷◌, ◌++◌, Option, none, some, Bool, true, false, Text, if◌then◌else◌,
}
use orin_device_system.Common.Sets.{IntSets, StringSets}
use orin_device_system.Allocator.{Outcome, done, panic}
use orin_device_system.Cache.{ScheduleCache, new_schedule_cache}
use orin_device_system.Manager.Bind.{
  Api, BindError, BindState, Retry, bind_attempt, get_pod_from_apiserver,
}
use orin_device_system.Controller.{
  InformerObject, QueueCall, Informers, filter_pod, add_pod_to_cache, update_pod_in_cache,
  delete_pod_from_cache, add_node_to_cache, update_node_in_cache, delete_node_from_cache,
  process_next_work_item,
}
use orin_device_system.Routes.{ExtenderBindingArgs, bind_handler}

-- What happens to the scheduler. The requests on predicates and priorities change nothing.
pub data ProgramEvent : Type 0 where
  pod_added : InformerObject → ProgramEvent
  pod_updated : InformerObject → InformerObject → ProgramEvent
  pod_deleted : InformerObject → ProgramEvent
  node_added : InformerObject → ProgramEvent
  node_updated : InformerObject → InformerObject → ProgramEvent
  node_deleted : InformerObject → ProgramEvent
  item_taken : Option Text → ProgramEvent
  bind_requested : ExtenderBindingArgs → ProgramEvent

-- The variables that a function shares with `n` attempts of it, when one of them panics.
unfoldable pub panic_state : {St E : Type 0} → ℕ → (St → Outcome (St × Option E)) → St → St
panic_state zero f s = s
panic_state (suc n) f s = elim (f s) [
  | panic ↦ s
  | done (t, none) ↦ t
  | done (t, some e) ↦ panic_state n f t
]

module _ ⦃S : IntSets⦄ ⦃T : StringSets⦄ (api : Api) where
  -- What a `Bind` that panics has changed: its attempts before the one that panics, which has fetched
  -- the pod and calls an allocator that panics. After a successful attempt, `newPod` is not nil.
  unfoldable pub bind_panicked : api.World → ScheduleCache → ExtenderBindingArgs → BindState api
  bind_panicked w c args =
      let s =
        panic_state 3 (bind_attempt api args.node args.pod_name args.pod_namespace args.pod_uid)
          (record { world = w; cache = c; new_pod = none }) in
      record s {
        world =
            (get_pod_from_apiserver api s.world args.pod_name args.pod_namespace args.pod_uid).0;
      }

module _ ⦃S : IntSets⦄ ⦃T : StringSets⦄ (api : Api) (message : BindError api.ApiError → Text)
    (retry : Retry) where
  -- The API server's state, the cache, and the calls on the pod queue.
  pub record ProgramState : Type 0 where
    pub world : api.World
    pub cache : ScheduleCache
    pub queue_calls : List QueueCall

  abbrev pub program_start : api.World → ProgramState
  program_start w = record { world = w; cache = new_schedule_cache; queue_calls = [] }

  abbrev pub with_calls : ProgramState → List QueueCall → ProgramState
  with_calls s calls = record s { queue_calls = s.queue_calls ++ calls }

  module _ (informers : Informers) where
    -- The handlers behind the `FilterFunc`: an update across the filter is an addition or a deletion.
    unfoldable pub on_pod_add : InformerObject → ProgramState → ProgramState
    on_pod_add obj s = if filter_pod obj then with_calls s (add_pod_to_cache informers obj) else s

    unfoldable pub on_pod_delete : InformerObject → ProgramState → ProgramState
    on_pod_delete obj s =
        if filter_pod obj
        then record s { cache = delete_pod_from_cache informers s.cache obj }
        else s

    unfoldable pub on_pod_update : InformerObject → InformerObject → ProgramState → ProgramState
    on_pod_update old new s =
        if filter_pod new
        then if filter_pod old
          then with_calls s (update_pod_in_cache informers s.cache old new)
          else on_pod_add new s
        else on_pod_delete old s

    unfoldable pub with_cache : ProgramState → Outcome ScheduleCache → Outcome ProgramState
    with_cache s panic = panic
    with_cache s (done c) = done (record s { cache = c })

    unfoldable pub after_item : ProgramState → ScheduleCache × Bool × List QueueCall → ProgramState
    after_item s (c, go_on, calls) = with_calls (record s { cache = c }) calls

    -- What a request to bind leaves. net/http recovers the panic of a handler, so that the program
    -- goes on with what was changed before it.
    unfoldable pub after_binding :
        ProgramState → BindState api → Outcome (BindState api × Text) → ProgramState
    after_binding s b panic = record s { world = b.world; cache = b.cache }
    after_binding s b (done (b', text)) = record s { world = b'.world; cache = b'.cache }

    unfoldable pub program_step : ProgramEvent → ProgramState → Outcome ProgramState
    program_step (pod_added obj) s = done (on_pod_add obj s)
    program_step (pod_updated old new) s = done (on_pod_update old new s)
    program_step (pod_deleted obj) s = done (on_pod_delete obj s)
    program_step (node_added obj) s = with_cache s (add_node_to_cache informers s.cache obj)
    program_step (node_updated old new) s =
        with_cache s (update_node_in_cache informers s.cache old new)
    program_step (node_deleted obj) s =
        done (record s { cache = delete_node_from_cache informers s.cache obj })
    program_step (item_taken key) s =
        done (after_item s (process_next_work_item informers s.cache key))
    program_step (bind_requested args) s = done (
        after_binding s (bind_panicked api s.world s.cache args)
          (bind_handler api message retry s.world s.cache args))

  -- The events in the order in which they happen; a panic of an informer's handler ends the program.
  unfoldable pub run_program : List (Informers × ProgramEvent) → ProgramState → Outcome ProgramState
  run_program [] s = done s
  run_program ((informers, event) ∷ events) s = elim (program_step informers event s) [
    | panic ↦ panic
    | done s' ↦ run_program events s'
  ]
