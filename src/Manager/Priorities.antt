-- ===== src/Manager/Priorities.antt =====
-- `Priority` of pkg/scheduler/manager/manager.go: from the allocator's scores to the answer.
use orin_device_system.Common.{
  ℤ, ℤ_discrete, pos, List, [], ◌∷◌, map, none, some, Text, ite, if_pos, if_neg, All, ◌≡◌, inl, inr,
  refl, sym, ap, ◌∙◌, arith, Option-cases,
}
use orin_device_system.Common.Sets.{IntSets, StringSets}
use orin_device_system.Topo.{BoardDetails}
use orin_device_system.Allocator.{
  done, binpack_allocator, allocate, binpack_allocate, best_fit, board_id_not_fount, max_int,
}
use orin_device_system.Pods.{Pod, build_request_orin_set}
use orin_device_system.NodeInfo.{NodeInfo}
use orin_device_system.Cache.{ScheduleCache, get_node}
use orin_device_system.Manager.{pod_allocator, score_node, score_nodes, normalize, priority}
use orin_device_system.Manager.Scores.{IsSmall, Normalized, normalize-Normalized}

module _ ⦃S : IntSets⦄ ⦃T : StringSets⦄ (c : ScheduleCache) where
  module _ (request : S.IntSet) where
    -- What the allocator gives a node, and zero for a node that is not cached.
    pub raw_score : Text → ℤ
    raw_score name = elim (get_node c name) [
      | none ↦ pos 0
      | some ni ↦ (binpack_allocate ni.allocatable request).score
    ]

    -- Ten times the score of each cached node fits in an int.
    abbrev pub ScoresSmall : Type 0
    ScoresSmall =
        (name : Text) (ni : NodeInfo)
        → get_node c name ≡ some ni
        → IsSmall 10 (binpack_allocate ni.allocatable request).score

    no_board_zero :
        (d : BoardDetails)
        → ite
            (ℤ_discrete (binpack_allocate d request).board_id board_id_not_fount)
            (pos 0)
            (binpack_allocate d request).score
          ≡ (binpack_allocate d request).score
    unfolding binpack_allocate
    no_board_zero d =
        elim (ℤ_discrete (best_fit d request board_id_not_fount max_int) board_id_not_fount) [
          | yes p ↦
              if_pos (ℤ_discrete (best_fit d request board_id_not_fount max_int) board_id_not_fount)
                p _ _
              ∙ sym (
                  if_pos
                    (ℤ_discrete (best_fit d request board_id_not_fount max_int) board_id_not_fount)
                    p _ _)
          | no n ↦
              if_neg (ℤ_discrete (best_fit d request board_id_not_fount max_int) board_id_not_fount)
                n _ _
        ]

    score_node-raw :
        (name : Text) → score_node c (some binpack_allocator) request name ≡ done (raw_score name)
    unfolding score_node allocate raw_score
    score_node-raw name = elim (Option-cases (get_node c name)) [
      | inl e ↦ rw (e, score_node, raw_score) refl
      | inr (ni, e) ↦ rw (e, score_node, raw_score) (ap done (no_board_zero ni.allocatable))
    ]

    score_nodes-raw :
        (nodes : List Text)
        → score_nodes c (some binpack_allocator) request nodes ≡ done (map raw_score nodes)
    unfolding score_nodes
    score_nodes-raw [] = refl
    score_nodes-raw (n ∷ nodes) =
        rw (score_node-raw n, score_nodes) (rw (score_nodes-raw nodes, score_nodes) refl)

    raw_score-IsSmall : ScoresSmall → (name : Text) → IsSmall 10 (raw_score name)
    unfolding raw_score
    raw_score-IsSmall small name = elim (Option-cases (get_node c name)) [
      | inl e ↦ rw (e, raw_score) (omega arith)
      | inr (ni, e) ↦ rw (e, raw_score) (small name ni e)
    ]

    All-IsSmall : ScoresSmall → (nodes : List Text) → All (IsSmall 10) (map raw_score nodes)
    All-IsSmall small [] = tt
    All-IsSmall small (n ∷ nodes) = (raw_score-IsSmall small n, All-IsSmall small nodes)

  -- For a pod with the binpack policy, if ten times the allocator's score of each cached node fits in
  -- an int, `Priority` returns the normalized scores of the nodes, in their order, where a node that is
  -- not cached has the score 0: none is above 10, 10 is reached if some score is positive, and no node
  -- ends below one that scored no higher.
  pub priority-Normalized :
      (nodes : List Text) (pod : Pod)
      → pod_allocator pod ≡ some binpack_allocator
      → ScoresSmall (build_request_orin_set pod)
      → (scores : List ℤ) × (priority c nodes pod ≡ done scores)
        × Normalized 10 (map (raw_score (build_request_orin_set pod)) nodes) scores
  unfolding priority
  priority-Normalized nodes pod policy small =
      let request = build_request_orin_set pod in
      (
        normalize 10 (map (raw_score request) nodes),
        rw (policy, score_nodes-raw request nodes, priority) refl,
        normalize-Normalized 10 (map (raw_score request) nodes) (All-IsSmall request small nodes),
      )
