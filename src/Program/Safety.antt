-- ===== src/Program/Safety.antt =====
-- The invariant of the whole scheduler: the events of Program on the cache of
-- pkg/scheduler/manager/cache.go.
use orin_device_system.Common.{
  List, [], ◌∷◌, Bool, Text, Bool-cases, ◌≡◌, inl, inr, refl, sym, ap, ap₂, subst, All,
}
use orin_device_system.Common.Sets.{IntSets, StringSets}
use orin_device_system.Allocator.{Outcome, done}
use orin_device_system.Pods.{Node}
use orin_device_system.Cache.{ScheduleCache}
use orin_device_system.Cache.WellFormed.{IsWellFormed}
use orin_device_system.Cache.Histories.{call_all-IsWellFormed}
use orin_device_system.Manager.Bind.{Api, BindError, BindState, Retry}
use orin_device_system.Controller.{
  InformerObject, pod_object, node_object, deleted_final_state_unknown, other_object, Informers,
  QueueCall, filter_pod, add_node_to_cache, update_node_in_cache,
}
use orin_device_system.Program.{
  ProgramEvent, pod_added, pod_updated, pod_deleted, node_added, node_updated, node_deleted,
  item_taken, bind_requested, ProgramState, program_start, on_pod_add, on_pod_delete, on_pod_update,
  with_cache, after_item, after_binding, program_step, run_program,
}
use orin_device_system.Program.Calls.{
  Called, uncalled, Called-trans, delete_pod_from_cache-Called, delete_node_from_cache-Called,
  add_node_object-Called, update_node_object-Called, process_next_work_item-Called,
}
use orin_device_system.Program.Binds.{Ends, bind_handler-Ends, bind_panicked-Called}

module _ ⦃S : IntSets⦄ ⦃T : StringSets⦄ (api : Api) (message : BindError api.ApiError → Text)
    (retry : Retry) where
  abbrev State : Type 0
  State = ProgramState api message retry

  module _ (informers : Informers) (s : State) where
    on_pod_add-Called :
        (obj : InformerObject) → Called s.cache (on_pod_add api message retry informers obj s).cache
    unfolding on_pod_add
    on_pod_add-Called obj = elim (Bool-cases (filter_pod obj)) [
      | inl h ↦ rw (h, on_pod_add) (uncalled s.cache)
      | inr h ↦ rw (h, on_pod_add) (uncalled s.cache)
    ]

    on_pod_delete-Called :
        (obj : InformerObject)
        → Called s.cache (on_pod_delete api message retry informers obj s).cache
    unfolding on_pod_delete
    on_pod_delete-Called obj = elim (Bool-cases (filter_pod obj)) [
      | inl h ↦ rw (h, on_pod_delete) (delete_pod_from_cache-Called informers s.cache obj)
      | inr h ↦ rw (h, on_pod_delete) (uncalled s.cache)
    ]

    on_pod_update-Called :
        (old new : InformerObject)
        → Called s.cache (on_pod_update api message retry informers old new s).cache
    unfolding on_pod_update
    on_pod_update-Called old new = elim (Bool-cases (filter_pod new)) [
      | inr h ↦ rw (h, on_pod_update) (on_pod_delete-Called old)
      | inl h ↦
          rw (h, on_pod_update)
            (elim (Bool-cases (filter_pod old)) [
              | inl k ↦ rw (k, on_pod_update) (uncalled s.cache)
              | inr k ↦ rw (k, on_pod_update) (on_pod_add-Called new)
            ])
    ]

    after_item-Called :
        (r : ScheduleCache × Bool × List QueueCall)
        → Called s.cache r.0
        → Called s.cache (after_item api message retry informers s r).cache
    unfolding after_item
    after_item-Called (c, go_on, calls) p = p

    with_cache-Ends :
        (o : Outcome ScheduleCache)
        → Ends o (λ c. Called s.cache c)
        → Ends (with_cache api message retry informers s o) (λ s'. Called s.cache s'.cache)
    unfolding with_cache
    with_cache-Ends o (inl p) = inl (rw (p, with_cache) refl)
    with_cache-Ends o (inr (c, e, p)) = inr (record s { cache = c }, rw (e, with_cache) refl, p)

    add_node_to_cache-Ends :
        (obj : InformerObject)
        → Ends (add_node_to_cache informers s.cache obj) (λ c. Called s.cache c)
    unfolding add_node_to_cache
    add_node_to_cache-Ends (node_object node) =
        inr (_, refl, add_node_object-Called informers s.cache node)
    add_node_to_cache-Ends (pod_object pod) = inl refl
    add_node_to_cache-Ends (deleted_final_state_unknown o) = inl refl
    add_node_to_cache-Ends other_object = inl refl

    update_node_in_cache-Ends :
        (old new : InformerObject)
        → Ends (update_node_in_cache informers s.cache old new) (λ c. Called s.cache c)
    unfolding update_node_in_cache
    update_node_in_cache-Ends (node_object old) (node_object new) =
        inr (_, refl, update_node_object-Called informers s.cache old new)
    update_node_in_cache-Ends (node_object old) (pod_object pod) = inl refl
    update_node_in_cache-Ends (node_object old) (deleted_final_state_unknown o) = inl refl
    update_node_in_cache-Ends (node_object old) other_object = inl refl
    update_node_in_cache-Ends (pod_object pod) new = inl refl
    update_node_in_cache-Ends (deleted_final_state_unknown o) new = inl refl
    update_node_in_cache-Ends other_object new = inl refl

    after_binding-Called :
        (b : BindState api) (o : Outcome (BindState api × Text))
        → Called s.cache b.cache
        → Ends o (λ r. Called s.cache r.0.cache)
        → Called s.cache (after_binding api message retry informers s b o).cache
    unfolding after_binding
    after_binding-Called b o p (inl q) = rw (q, after_binding) p
    after_binding-Called b o p (inr ((b', text), e, q)) = rw (e, after_binding) q

    program_step-Ends :
        (event : ProgramEvent)
        → Ends (program_step api message retry informers event s) (λ s'. Called s.cache s'.cache)
    unfolding program_step
    program_step-Ends (pod_added obj) = inr (_, refl, on_pod_add-Called obj)
    program_step-Ends (pod_updated old new) = inr (_, refl, on_pod_update-Called old new)
    program_step-Ends (pod_deleted obj) = inr (_, refl, on_pod_delete-Called obj)
    program_step-Ends (node_added obj) = with_cache-Ends _ (add_node_to_cache-Ends obj)
    program_step-Ends (node_updated old new) = with_cache-Ends _ (update_node_in_cache-Ends old new)
    program_step-Ends (node_deleted obj) =
        inr (_, refl, delete_node_from_cache-Called informers s.cache obj)
    program_step-Ends (item_taken key) =
        inr (_, refl, after_item-Called _ (process_next_work_item-Called informers s.cache key))
    program_step-Ends (bind_requested args) = inr (
      _,
      refl,
      after_binding-Called _ _ (bind_panicked-Called api retry s.world s.cache args)
          (bind_handler-Ends api message retry s.world s.cache args),
    )

  run_program-Ends :
      (events : List (Informers × ProgramEvent)) (s : State)
      → Ends (run_program api message retry events s) (λ s'. Called s.cache s'.cache)
  unfolding run_program
  run_program-Ends [] s = inr (s, refl, uncalled s.cache)
  run_program-Ends ((informers, event) ∷ events) s = elim (program_step-Ends informers s event) [
    | inl p ↦ inl (rw (p, run_program) refl)
    | inr (t, e, p) ↦
        rw (e, run_program)
          (elim (run_program-Ends events t) [
            | inl q ↦ inl q
            | inr (u, f, q) ↦ inr (u, f, Called-trans s.cache t.cache u.cache p q)
          ])
  ]

  -- Events of nodes bring nodes.
  abbrev pub IsCalm : Informers × ProgramEvent → Type 0
  IsCalm (informers, pod_added obj) = Unit
  IsCalm (informers, pod_updated old new) = Unit
  IsCalm (informers, pod_deleted obj) = Unit
  IsCalm (informers, node_added obj) = (node : Node) × (obj ≡ node_object node)
  IsCalm (informers, node_updated old new) =
      (node : Node) × (node' : Node) × (old ≡ node_object node) × (new ≡ node_object node')
  IsCalm (informers, node_deleted obj) = Unit
  IsCalm (informers, item_taken key) = Unit
  IsCalm (informers, bind_requested args) = Unit

  program_step-calm :
      (informers : Informers) (event : ProgramEvent) (s : State)
      → IsCalm (informers, event)
      → (s' : State) × (program_step api message retry informers event s ≡ done s')
  unfolding program_step with_cache add_node_to_cache update_node_in_cache
  program_step-calm informers (pod_added obj) s calm = (_, refl)
  program_step-calm informers (pod_updated old new) s calm = (_, refl)
  program_step-calm informers (pod_deleted obj) s calm = (_, refl)
  program_step-calm informers (node_added obj) s (node, e) = (
    _,
    ap (λ o. with_cache api message retry informers s (add_node_to_cache informers s.cache o)) e,
  )
  program_step-calm informers (node_updated old new) s (node, node', e, e') = (
    _,
    ap₂
        (λ o o'.
          with_cache api message retry informers s (update_node_in_cache informers s.cache o o'))
        e e',
  )
  program_step-calm informers (node_deleted obj) s calm = (_, refl)
  program_step-calm informers (item_taken key) s calm = (_, refl)
  program_step-calm informers (bind_requested args) s calm = (_, refl)

  run_program-calm :
      (events : List (Informers × ProgramEvent)) (s : State)
      → All IsCalm events
      → (s' : State) × (run_program api message retry events s ≡ done s')
  unfolding run_program
  run_program-calm [] s calm = (s, refl)
  run_program-calm ((informers, event) ∷ events) s (calm, later) =
      let (t, e) = program_step-calm informers event s calm in
      let (u, f) = run_program-calm events t later in (u, rw (e, run_program) f)

  -- After any events of the pod and node informers, items of the pod queue and requests to bind, in
  -- any order and with any answers of the listers and the API server, unless a handler of the node
  -- informer panics: no node is cached twice; each is cached under its own name, has exactly the
  -- boards that its capacity names, with the orins of its capacity at least; and its pods are
  -- recorded under their own UIDs, as are the pods that the cache knows. If the node informer
  -- brings nodes, no event ends the program, a request to bind that panics included.
  pub run_program-IsWellFormed :
      (w : api.World) (events : List (Informers × ProgramEvent))
      → Ends
          (run_program api message retry events (program_start api message retry w))
          (λ s. IsWellFormed s.cache)
        × (All IsCalm events
            → (s : State) × (run_program api message retry events
                  (program_start api message retry w)
                ≡ done s))
  run_program-IsWellFormed w events = (
    elim (run_program-Ends events (program_start api message retry w)) [
      | inl p ↦ inl p
      | inr (t, e, p) ↦
          inr (t, e, subst IsWellFormed (sym p.effect) (call_all-IsWellFormed p.calls))
    ],
    run_program-calm events (program_start api message retry w),
  )
