-- ===== src/Manager/Bind/Known.antt =====
-- `Bind` of a pod that the cache knows.
use orin_device_system.Common.{
  ℕ, zero, suc, ℤ_discrete, Option, none, some, true, false, Text, Text_discrete, has_key, Result,
  ok, err, Option-cases, inl, inr, if_pos, if_neg, ◌≡◌, ◌⊎◌, refl, sym, ◌∙◌, subst, arith,
}
use orin_device_system.Common.Sets.{IntSets, StringSets}
use orin_device_system.Allocator.{
  Outcome, done, panic, AllocatorResult, allocate, board_id_not_fount,
}
use orin_device_system.Pods.{Pod, add_pod_bind_annotation, build_request_orin_set}
use orin_device_system.Cache.{ScheduleCache, CacheError, assume_pod, get_node}
use orin_device_system.Cache.Effects.{assume_pod-known}
use orin_device_system.Manager.{pod_allocator}
use orin_device_system.Manager.Bind.{
  Api, BindError, bind_node_not_found, retries_failed, Retry, BindState, get_pod_again,
  get_pod_first, get_pod_from_apiserver, after_assume, bind_to, bind_found, with_pod_found,
  bind_attempt, after_retries, bind,
}

pub Outcome-cases {ℓ} : {A : Type ℓ} (o : Outcome A) → (o ≡ panic) ⊎ ((a : A) × (o ≡ done a))
Outcome-cases (done a) = inr (a, refl)
Outcome-cases panic = inl refl

module _ ⦃S : IntSets⦄ ⦃T : StringSets⦄ (api : Api) where
  open api use {World, ApiError, get_pod}

  -- A pod that `GetPodFromApiserver` returns has the expected UID.
  get_pod_again-uid :
      (r : World × Result ApiError Pod) (uid : Text) {pod : Pod}
      → (get_pod_again api r uid).1 ≡ ok pod
      → pod.uid ≡ uid
  unfolding get_pod_again
  get_pod_again-uid (w, err e) uid h = cc
  get_pod_again-uid (w, ok p) uid h = ground arith

  get_pod_first-uid :
      (r : World × Result ApiError Pod) (name namespace uid : Text) {pod : Pod}
      → (get_pod_first api r name namespace uid).1 ≡ ok pod
      → pod.uid ≡ uid
  unfolding get_pod_first
  get_pod_first-uid (w, err e) name namespace uid h = cc
  get_pod_first-uid (w, ok p) name namespace uid {pod} h =
      ground (arith, get_pod_again-uid (get_pod w name namespace) uid {pod = pod})

  pub get_pod-uid :
      (w : World) (name namespace uid : Text) {pod : Pod}
      → (get_pod_from_apiserver api w name namespace uid).1 ≡ ok pod
      → pod.uid ≡ uid
  unfolding get_pod_from_apiserver
  get_pod-uid w name namespace uid = get_pod_first-uid (get_pod w name namespace) name namespace uid

  -- The outcome is a panic, or an error that leaves the cache as it was.
  abbrev pub Refused :
      ScheduleCache → Outcome (BindState api × Option (BindError ApiError)) → Type 0
  Refused c o =
      (o ≡ panic)
      ⊎ ((t : BindState api) × (e : BindError ApiError) × (o ≡ done (t, some e)) × (t.cache ≡ c))

  after_assume-Refused :
      (w : World) (c : ScheduleCache) (r : ScheduleCache × Option CacheError) (e : CacheError)
      (node : Text) (pod new_pod : Pod)
      → r ≡ (c, some e)
      → Refused c (done (after_assume api w r node pod new_pod))
  unfolding after_assume
  after_assume-Refused w c r e node pod new_pod h = rw h (inr (_, _, refl, refl))

  bind_to-Refused :
      (w : World) (c : ScheduleCache) (previous : Option Pod) (node : Text) (pod : Pod)
      (res : AllocatorResult)
      → has_key Text_discrete pod.uid c.pod_maps ≡ true
      → Refused c (done (bind_to api w c previous node pod res))
  unfolding bind_to add_pod_bind_annotation
  bind_to-Refused w c previous node pod res h =
      let new_pod = add_pod_bind_annotation pod res.board_id in
      let none_fits = ℤ_discrete res.board_id board_id_not_fount in
      let (e, known) = assume_pod-known c new_pod node h in
      elim (ℤ_discrete res.board_id board_id_not_fount) [
        | yes p ↦ rw (if_pos none_fits p) (inr (_, _, refl, refl))
        | no p ↦
            rw (if_neg none_fits p)
              (after_assume-Refused w c (assume_pod c new_pod node) e node pod new_pod known)
      ]

  bind_found-Refused :
      (w : World) (c : ScheduleCache) (previous : Option Pod) (node : Text) (pod : Pod)
      → has_key Text_discrete pod.uid c.pod_maps ≡ true
      → Refused c (bind_found api w c previous node pod)
  unfolding bind_found
  bind_found-Refused w c previous node pod h = elim (Option-cases (get_node c node)) [
    | inl e ↦ rw (e, bind_found) (inr (_, _, refl, refl))
    | inr (ni, e) ↦
        elim (Outcome-cases
          (allocate (pod_allocator pod) ni.allocatable (build_request_orin_set pod))) [
            | inl p ↦ rw (e, bind_found) (rw (p, bind_found) (inl refl))
            | inr (res, d) ↦
                rw (e, bind_found)
                  (rw (d, bind_found) (bind_to-Refused w c previous node pod res h))
          ]
  ]

  with_pod_found-Refused :
      (r : World × Result (BindError ApiError) Pod) (c : ScheduleCache) (previous : Option Pod)
      (node uid : Text)
      → ((pod : Pod) → r.1 ≡ ok pod → pod.uid ≡ uid)
      → has_key Text_discrete uid c.pod_maps ≡ true
      → Refused c (with_pod_found api r c previous node)
  unfolding with_pod_found
  with_pod_found-Refused (w, err e) c previous node uid same h = inr (_, e, refl, refl)
  with_pod_found-Refused (w, ok pod) c previous node uid same h =
      bind_found-Refused w c previous node pod
        (subst (λ u. has_key Text_discrete u c.pod_maps ≡ true) (sym (same pod refl)) h)

  module _ (node name namespace pod_uid : Text) where
    -- While the cache knows the UID, an attempt of `Bind` is refused.
    pub bind_attempt-Refused :
        (s : BindState api)
        → has_key Text_discrete pod_uid s.cache.pod_maps ≡ true
        → Refused s.cache (bind_attempt api node name namespace pod_uid s)
    unfolding bind_attempt
    bind_attempt-Refused s h =
        with_pod_found-Refused (get_pod_from_apiserver api s.world name namespace pod_uid) s.cache
          s.new_pod node pod_uid (λ pod e. get_pod-uid s.world name namespace pod_uid {pod = pod} e)
          h

    -- So are all attempts together.
    pub retry-refused :
        (retry : Retry) (n : ℕ) (s : BindState api)
        → has_key Text_discrete pod_uid s.cache.pod_maps ≡ true
        → let o = retry.retry_do (suc n) (bind_attempt api node name namespace pod_uid) s in
          (o ≡ panic) ⊎ ((t : BindState api) × (o ≡ done (t, false)) × (t.cache ≡ s.cache))
    retry-refused retry zero s h =
        let f = bind_attempt api node name namespace pod_uid in
        elim (bind_attempt-Refused s h) [
          | inl p ↦ inl (retry.retry_panic zero f s p)
          | inr (t, e, d, same) ↦ inr (t, retry.retry_last f s d, same)
        ]
    retry-refused retry (suc n) s h =
        let f = bind_attempt api node name namespace pod_uid in
        elim (bind_attempt-Refused s h) [
          | inl p ↦ inl (retry.retry_panic (suc n) f s p)
          | inr (t, e, d, same) ↦
              let again = retry.retry_again n f s d in
              elim (retry-refused retry n t
                (subst (λ c. has_key Text_discrete pod_uid c.pod_maps ≡ true) (sym same) h)) [
                  | inl p ↦ inl (again ∙ p)
                  | inr (u, q, kept) ↦ inr (u, again ∙ q, kept ∙ same)
                ]
        ]

    -- `Bind` of a pod whose UID the cache knows panics, or returns an error and leaves the cache
    -- as it was.
    pub bind-Refused :
        (retry : Retry) (w : World) (c : ScheduleCache)
        → has_key Text_discrete pod_uid c.pod_maps ≡ true
        → Refused c (bind api retry w c node name namespace pod_uid)
    unfolding bind after_retries
    bind-Refused retry w c h =
        let s : BindState api = record { world = w; cache = c; new_pod = none } in
        elim (Option-cases (get_node c node)) [
          | inl e ↦ rw (e, bind) (inr (s, bind_node_not_found, refl, refl))
          | inr (ni, e) ↦ elim (retry-refused retry 2 s h) [
            | inl p ↦ rw (e, bind) (rw p (inl refl))
            | inr (t, d, same) ↦ rw (e, bind) (rw d (inr (t, retries_failed, refl, same)))
          ]
        ]
