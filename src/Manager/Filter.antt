-- ===== src/Manager/Filter.antt =====
-- `Predicate`: which nodes pass the filter, which fail, and the shape of the answer.
use orin_device_system.Common.{
  ◌-◌, List, [], ◌∷◌, ◌++◌, none, some, true, ◌&&◌, not, Text, Text_discrete, has_key, lookup,
  length, length-append, length-replicate, replicate, ◌≡◌, ◌≢◌, ◌↔◌, refl, arith, Option-cases,
  Bool-cases, inl, inr, ◌∙◌,
}
use orin_device_system.Common.Sets.{IntSets, StringSets}
use orin_device_system.Allocator.{binpack_allocator, done, panic, allocate}
use orin_device_system.Pods.{Pod, build_request_orin_set}
use orin_device_system.NodeInfo.{NodeInfo}
use orin_device_system.Cache.{ScheduleCache, get_node}
use orin_device_system.Manager.Rounds.{
  mem, mem-append, mem-replicate, CanHost, NodesSane, picks, picks-CanHost, CanHost-picks,
  check_nodes-FiledAll,
}
use orin_device_system.Manager.{Filtered, pod_allocator, check_node, check_nodes, predicate}

module _ ⦃S : IntSets⦄ ⦃T : StringSets⦄ (c : ScheduleCache) (nodes order : List Text)
    (pod : Pod) where
  -- The workers take each piece once: the order is a rearrangement of the nodes.
  pub record IsSchedule : Type 0 where
    pub same_nodes : (x : Text) → mem x order ≡ mem x nodes
    pub same_length : length order ≡ length nodes

  pub record Answer (r : Filtered) : Type 0 where
    pub passes :
        (x : Text)
        → x ≢ []
        → (mem x r.nodes ≡ true) ↔ ((mem x nodes ≡ true) × CanHost c (build_request_orin_set pod) x)
    pub fails :
        (x : Text)
        → (has_key Text_discrete x r.failed ≡ true)
          ↔ ((mem x nodes ≡ true) × ¬ CanHost c (build_request_orin_set pod) x)
    pub padded : length r.nodes ≡ length nodes

  -- For a pod with the binpack policy, where the free orins of every cached node are a sane map,
  -- and for every order in which the workers take the nodes, `Predicate` returns; a node other
  -- than the empty name is in its answer exactly if it was asked for and can host the pod, a node
  -- is in the failures exactly if it was asked for and cannot, and the answer has as many slots as
  -- there are nodes.
  pub predicate-Answer :
      pod_allocator pod ≡ some binpack_allocator
      → NodesSane c (build_request_orin_set pod)
      → IsSchedule
      → (r : Filtered) × (predicate c nodes order pod ≡ done r) × Answer r
  unfolding predicate lookup mem
  predicate-Answer policy sane schedule =
      let request = build_request_orin_set pod in
      let picked = picks c request in
      let start : Filtered = record { nodes = []; failed = [] } in
      let (f, e, all) = check_nodes-FiledAll c request order start in
      let padding = replicate (length nodes - length f.nodes) [] in
      let passed : (x : Text) → x ≢ [] → mem x (f.nodes ++ padding) ≡ (mem x nodes && picked x) =
        λ x h. ground (
          arith,
          mem-append x f.nodes padding,
          mem-replicate x [] (length nodes - length f.nodes) h,
          all.kept x,
          schedule.same_nodes x,
        ) in
      let refused : (x : Text)
          → has_key Text_discrete x f.failed ≡ (mem x nodes && not (picked x)) =
        λ x. ground (arith, all.refused x, schedule.same_nodes x) in
      (
        record f { nodes = f.nodes ++ padding },
        rw (policy, e, predicate) refl,
        record {
          passes = λ x h. (
            λ k. (
              ground (arith, passed x h),
              picks-CanHost c request sane x (ground (arith, passed x h)),
            ),
            λ (k, host). ground (arith, passed x h, CanHost-picks c request sane x host),
          );
          fails = λ x. (
            λ k. (
              ground (arith, refused x),
              λ host. ground (arith, refused x, CanHost-picks c request sane x host),
            ),
            λ (k, cannot). elim (Bool-cases (picked x)) [
              | inl yes_picked ↦ absurd (cannot (picks-CanHost c request sane x yes_picked))
              | inr not_picked ↦ ground (arith, refused x)
            ],
          );
          padded =
              length-append f.nodes padding
              ∙ omega (
                arith,
                all.counted,
                schedule.same_length,
                length-replicate {A = Text} (length nodes - length f.nodes) [],
              );
        },
      )

  check_nodes-panic :
      (request : S.IntSet) (names : List Text) (f : Filtered) (name : Text) (ni : NodeInfo)
      → mem name names ≡ true
      → get_node c name ≡ some ni
      → check_nodes c none request names f ≡ panic
  unfolding check_nodes check_node allocate mem
  check_nodes-panic request [] f name ni h e = cc
  check_nodes-panic request (n ∷ names) f name ni h e = elim (Option-cases (get_node c n)) [
    | inr (ni', e') ↦ rw (e', check_nodes, check_node) refl
    | inl e' ↦
        rw (e', check_nodes, check_node) (check_nodes-panic request names _ name ni (later e') e)
  ]
    where
      later : get_node c n ≡ none → mem name names ≡ true
      later e' = ground (arith, e', e, h)

  -- For a pod whose policy has no allocator, and for every order of the workers, `Predicate`
  -- panics if one of the nodes that it is asked for is cached.
  pub predicate-panic :
      (name : Text) (ni : NodeInfo)
      → pod_allocator pod ≡ none
      → IsSchedule
      → mem name nodes ≡ true
      → get_node c name ≡ some ni
      → predicate c nodes order pod ≡ panic
  unfolding predicate
  predicate-panic name ni policy schedule h e =
      rw
        (
          policy,
          check_nodes-panic (build_request_orin_set pod) order (record { nodes = []; failed = [] })
              name ni (schedule.same_nodes name ∙ h) e,
          predicate,
        )
        refl
