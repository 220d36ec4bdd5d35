-- ===== src/Routes/Hosts.antt =====
-- The list of priorities that the extender answers: a score for each node it was asked for.
use orin_device_system.Common.{
  ℕ, suc, ◌==◌, ℤ, List, [], ◌∷◌, map, Option, some, Text, length, length-map, ◌≡◌, ◌⊎◌, inl, inr,
  refl, ap, ◌∙◌, arith, Bool-cases,
}
use orin_device_system.Common.Sets.{IntSets, StringSets}
use orin_device_system.Allocator.{done, panic, Allocator}
use orin_device_system.Pods.{Pod, build_request_orin_set}
use orin_device_system.Manager.Bind.Known.{Outcome-cases}
use orin_device_system.Cache.{ScheduleCache}
use orin_device_system.Manager.{
  max_count, scale, normalize, pod_allocator, score_node, score_nodes, priority,
}
use orin_device_system.Routes.{HostPriority, host_priorities, priority_list, prioritize_handler}

length-normalize : (k : ℕ) (scores : List ℤ) → length (normalize k scores) ≡ length scores
unfolding normalize
length-normalize k scores = elim (Bool-cases (max_count scores 0 == 0)) [
  | inl z ↦ rw z refl
  | inr p ↦ rw p (length-map (scale k (max_count scores 0)) scores)
]

hosts-host_priorities :
    (nodes : List Text) (scores : List ℤ)
    → length scores ≡ length nodes
    → map (λ (h : HostPriority). h.host) (host_priorities nodes scores) ≡ nodes
unfolding host_priorities
hosts-host_priorities [] scores h = refl
hosts-host_priorities (n ∷ nodes) [] h = absurd (ground (arith, h))
hosts-host_priorities (n ∷ nodes) (s ∷ scores) h =
    ap (λ ns. n ∷ ns) (hosts-host_priorities nodes scores (ground (arith, h)))

module _ ⦃S : IntSets⦄ ⦃T : StringSets⦄ where
  score_nodes-length :
      (c : ScheduleCache) (a : Option Allocator) (request : S.IntSet) (nodes : List Text)
      → (score_nodes c a request nodes ≡ panic)
        ⊎ ((scores : List ℤ) × (score_nodes c a request nodes ≡ done scores)
            × (length scores ≡ length nodes))
  unfolding score_nodes
  score_nodes-length c a request [] = inr ([], refl, refl)
  score_nodes-length c a request (n ∷ nodes) = elim (Outcome-cases (score_node c a request n)) [
    | inl p ↦ inl (rw (p, score_nodes) refl)
    | inr (s, e) ↦ elim (score_nodes-length c a request nodes) [
      | inl p ↦ inl (rw (e, score_nodes) (rw (p, score_nodes) refl))
      | inr (ss, f, same) ↦
          inr (s ∷ ss, rw (e, score_nodes) (rw (f, score_nodes) refl), ap suc same)
    ]
  ]

  -- The prioritize handler panics, or it answers with one priority for each of the nodes, in their
  -- order.
  pub prioritize_handler-hosts :
      (c : ScheduleCache) (pod : Pod) (nodes : List Text)
      → let o = prioritize_handler c (record { pod = pod; node_names = some nodes }) in
        (o ≡ panic)
        ⊎ ((hs : List HostPriority) × (o ≡ done hs)
            × (map (λ (h : HostPriority). h.host) hs ≡ nodes))
  unfolding prioritize_handler priority_list priority
  prioritize_handler-hosts c pod nodes =
      elim (score_nodes-length c (pod_allocator pod) (build_request_orin_set pod) nodes) [
        | inl p ↦ inl (rw (p, priority) refl)
        | inr (scores, e, same) ↦ inr (
          host_priorities nodes (normalize 10 scores),
          rw (e, priority) refl,
          hosts-host_priorities nodes (normalize 10 scores) (length-normalize 10 scores ∙ same),
        )
      ]
