-- ===== src/Program/Binds.antt =====
-- The calls of the cache that `Bind` of pkg/scheduler/manager/manager.go makes.
use orin_device_system.Common.{
  ℕ, zero, suc, ℤ_discrete, Option, none, some, [], Bool, true, false, Text, Result, ok, err,
  Option-cases, ◌≡◌, ◌⊎◌, inl, inr, refl, sym, ◌∙◌, if_pos, if_neg, subst,
}
use orin_device_system.Common.Sets.{IntSets, StringSets}
use orin_device_system.Allocator.{
  Outcome, done, panic, allocate, AllocatorResult, board_id_not_fount,
}
use orin_device_system.Pods.{Pod, build_request_orin_set, add_pod_bind_annotation}
use orin_device_system.Cache.{ScheduleCache, CacheError, assume_pod, forget_pod, get_node}
use orin_device_system.Cache.Calls.{call_assume_pod, call_forget_pod, call}
use orin_device_system.Manager.{pod_allocator}
use orin_device_system.Manager.Bind.Known.{Outcome-cases}
use orin_device_system.Manager.Bind.{
  Api, BindError, BindState, Retry, after_update, after_assume, bind_to, bind_found, with_pod_found,
  bind_attempt, recovered, after_bind, after_retries, bind, get_pod_from_apiserver, no_board,
}
use orin_device_system.Routes.{ExtenderBindingArgs, bind_handler, binding_result}
use orin_device_system.Program.{panic_state, bind_panicked}
use orin_device_system.Program.Calls.{Called, uncalled, called, Called-trans}

-- An outcome is a panic, or it is related to what was before.
abbrev pub Ends {ℓ κ} : {A : Type ℓ} → Outcome A → (A → Type κ) → Type (ℓ ⊔ κ)
Ends o R = (o ≡ panic) ⊎ ((a : _) × (o ≡ done a) × R a)

module _ (retry : Retry) {St E : Type 0} (f : St → Outcome (St × Option E))
    (R : St → St → Type 0) where
  -- Retrying keeps a transitive relation that each attempt keeps.
  retry_do-Ends :
      ((s t u : St) → R s t → R t u → R s u)
      → ((s : St) → Ends (f s) (λ r. R s r.0))
      → (n : ℕ) (s : St) → Ends (retry.retry_do (suc n) f s) (λ r. R s r.0)
  retry_do-Ends through each zero s = elim (each s) [
    | inl p ↦ inl (retry.retry_panic 0 f s p)
    | inr ((t, none), e, h) ↦ inr ((t, true), retry.retry_success 0 f s e, h)
    | inr ((t, some x), e, h) ↦ inr ((t, false), retry.retry_last f s e, h)
  ]
  retry_do-Ends through each (suc n) s = elim (each s) [
    | inl p ↦ inl (retry.retry_panic (suc n) f s p)
    | inr ((t, none), e, h) ↦ inr ((t, true), retry.retry_success (suc n) f s e, h)
    | inr ((t, some x), e, h) ↦ (elim (retry_do-Ends through each n t) [
      | inl p ↦ inl (retry.retry_again n f s e ∙ p)
      | inr ((u, b), e', h') ↦ inr ((u, b), retry.retry_again n f s e ∙ e', through s t u h h')
    ])
  ]

  -- So does the way to a panic.
  panic_state-kept :
      ((s : St) → R s s)
      → ((s t u : St) → R s t → R t u → R s u)
      → ((s : St) → Ends (f s) (λ r. R s r.0))
      → (n : ℕ) (s : St) → R s (panic_state n f s)
  unfolding panic_state
  panic_state-kept here through each zero s = here s
  panic_state-kept here through each (suc n) s = elim (each s) [
    | inl p ↦ rw (p, panic_state) (here s)
    | inr ((t, none), e, h) ↦ rw (e, panic_state) h
    | inr ((t, some x), e, h) ↦
        rw (e, panic_state) (through s t _ h (panic_state-kept here through each n t))
  ]

module _ ⦃S : IntSets⦄ ⦃T : StringSets⦄ (api : Api) where
  open api use {World, ApiError}

  after_update-Called :
      (r : World × Option ApiError) (c : ScheduleCache) (node : Text) (pod new_pod : Pod)
      → Called c (after_update api r c node pod new_pod).0.cache
  unfolding after_update call
  after_update-Called (w, none) c node pod new_pod = uncalled c
  after_update-Called (w, some e) c node pod new_pod = called (call_forget_pod pod node) c

  after_assume-Called :
      (w : World) (c : ScheduleCache) (r : ScheduleCache × Option CacheError) (node : Text)
      (pod new_pod : Pod)
      → Called c r.0
      → Called c (after_assume api w r node pod new_pod).0.cache
  unfolding after_assume
  after_assume-Called w c (d, some e) node pod new_pod p = p
  after_assume-Called w c (d, none) node pod new_pod p =
      Called-trans c d _ p (after_update-Called (api.update_pod w new_pod) d node pod new_pod)

  bind_to-Called :
      (w : World) (c : ScheduleCache) (previous : Option Pod) (node : Text) (pod : Pod)
      (res : AllocatorResult)
      → Called c (bind_to api w c previous node pod res).0.cache
  unfolding bind_to call
  bind_to-Called w c previous node pod res =
      let new_pod = add_pod_bind_annotation pod res.board_id in
      let none_fits = ℤ_discrete res.board_id board_id_not_fount in
      let refused : BindState api × Option (BindError ApiError) =
        (record { world = w; cache = c; new_pod = previous }, some no_board) in
      let placed = after_assume api w (assume_pod c new_pod node) node pod new_pod in
      elim (ℤ_discrete res.board_id board_id_not_fount) [
        | yes p ↦ rw (if_pos none_fits p refused placed) (uncalled c)
        | no p ↦ rw (if_neg none_fits p refused placed) (
            after_assume-Called w c (assume_pod c new_pod node) node pod new_pod
              (called (call_assume_pod new_pod node) c))
      ]

  bind_found-Ends :
      (w : World) (c : ScheduleCache) (previous : Option Pod) (node : Text) (pod : Pod)
      → Ends (bind_found api w c previous node pod) (λ r. Called c r.0.cache)
  unfolding bind_found
  bind_found-Ends w c previous node pod = elim (Option-cases (get_node c node)) [
    | inl e ↦ rw (e, bind_found) (inr (_, refl, uncalled c))
    | inr (ni, e) ↦
        rw (e, bind_found)
          (elim (Outcome-cases
            (allocate (pod_allocator pod) ni.allocatable (build_request_orin_set pod))) [
              | inl p ↦ rw (p, bind_found) (inl refl)
              | inr (res, d) ↦
                  rw (d, bind_found) (inr (_, refl, bind_to-Called w c previous node pod res))
            ])
  ]

  with_pod_found-Ends :
      (r : World × Result (BindError ApiError) Pod) (c : ScheduleCache) (previous : Option Pod)
      (node : Text)
      → Ends (with_pod_found api r c previous node) (λ r. Called c r.0.cache)
  unfolding with_pod_found
  with_pod_found-Ends (w, err e) c previous node = inr (_, refl, uncalled c)
  with_pod_found-Ends (w, ok pod) c previous node = bind_found-Ends w c previous node pod

  recovered-cache :
      (r : World × Option ApiError) (e : ApiError) (c : ScheduleCache) (p : Option Pod)
      → (recovered api r e c p).0.cache ≡ c
  unfolding recovered
  recovered-cache (w, none) e c p = refl
  recovered-cache (w, some e') e c p = refl

  after_bind-Ends :
      (r : World × Option ApiError) (c : ScheduleCache) (new_pod : Option Pod) (node : Text)
      → Ends (after_bind api r c new_pod node) (λ r. Called c r.0.cache)
  unfolding after_bind call
  after_bind-Ends (w, none) c new_pod node = inr (_, refl, uncalled c)
  after_bind-Ends (w, some e) c none node = inl refl
  after_bind-Ends (w, some e) c (some p) node = inr (
    _,
    refl,
    subst (Called c) (sym (recovered-cache _ e (forget_pod c p node).0 (some p)))
        (called (call_forget_pod p node) c),
  )

  module _ (node name namespace pod_uid : Text) where
    bind_attempt-Ends :
        (s : BindState api)
        → Ends (bind_attempt api node name namespace pod_uid s) (λ r. Called s.cache r.0.cache)
    unfolding bind_attempt
    bind_attempt-Ends s =
        with_pod_found-Ends (get_pod_from_apiserver api s.world name namespace pod_uid) s.cache
          s.new_pod node

    after_retries-Ends :
        (c : ScheduleCache) (s : BindState api) (b : Bool)
        → Called c s.cache
        → Ends
            (after_retries api (done (s, b)) node name namespace pod_uid)
            (λ r. Called c r.0.cache)
    unfolding after_retries
    after_retries-Ends c s false p = inr (_, refl, p)
    after_retries-Ends c s true p =
        elim (after_bind-Ends (api.bind_pod s.world namespace name pod_uid node) s.cache s.new_pod
          node) [ inl q ↦ inl q | inr (r, e, q) ↦ inr (r, e, Called-trans c s.cache r.0.cache p q) ]

    bind-Ends :
        (retry : Retry) (w : World) (c : ScheduleCache)
        → Ends (bind api retry w c node name namespace pod_uid) (λ r. Called c r.0.cache)
    unfolding bind after_retries
    bind-Ends retry w c = elim (Option-cases (get_node c node)) [
      | inl e ↦ rw (e, bind) (inr (_, refl, uncalled c))
      | inr (ni, e) ↦
          rw (e, bind)
            (elim (retry_do-Ends retry (bind_attempt api node name namespace pod_uid)
              (λ s t. Called s.cache t.cache)
              (λ s t u p q. Called-trans s.cache t.cache u.cache p q) bind_attempt-Ends 2
              (record { world = w; cache = c; new_pod = none })) [
                | inl p ↦ rw (p, after_retries) (inl refl)
                | inr ((t, b), d, p) ↦ rw (d, after_retries) (after_retries-Ends c t b p)
              ])
    ]

  binding_result-Ends :
      (message : BindError ApiError → Text) (c : ScheduleCache)
      (o : Outcome (BindState api × Option (BindError ApiError)))
      → Ends o (λ r. Called c r.0.cache)
      → Ends (binding_result api message o) (λ r. Called c r.0.cache)
  unfolding binding_result
  binding_result-Ends message c o (inl p) = inl (rw (p, binding_result) refl)
  binding_result-Ends message c o (inr ((s, none), e, p)) =
      inr ((s, []), rw (e, binding_result) refl, p)
  binding_result-Ends message c o (inr ((s, some x), e, p)) =
      inr ((s, message x), rw (e, binding_result) refl, p)

  -- A request to bind reaches the cache by calls, unless it panics.
  pub bind_handler-Ends :
      (message : BindError ApiError → Text) (retry : Retry) (w : World) (c : ScheduleCache)
      (args : ExtenderBindingArgs)
      → Ends (bind_handler api message retry w c args) (λ r. Called c r.0.cache)
  unfolding bind_handler
  bind_handler-Ends message retry w c args =
      binding_result-Ends message c _
        (bind-Ends args.node args.pod_name args.pod_namespace args.pod_uid retry w c)

  -- A request to bind that panics has reached the cache by calls, too.
  pub bind_panicked-Called :
      (retry : Retry) (w : World) (c : ScheduleCache) (args : ExtenderBindingArgs)
      → Called c (bind_panicked api w c args).cache
  unfolding bind_panicked
  bind_panicked-Called retry w c args =
      panic_state-kept retry
        (bind_attempt api args.node args.pod_name args.pod_namespace args.pod_uid)
        (λ s t. Called s.cache t.cache) (λ s. uncalled s.cache)
        (λ s t u p q. Called-trans s.cache t.cache u.cache p q)
        (bind_attempt-Ends args.node args.pod_name args.pod_namespace args.pod_uid) 3
        (record { world = w; cache = c; new_pod = none })
