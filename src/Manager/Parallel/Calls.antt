-- ===== src/Manager/Parallel/Calls.antt =====
-- `Predicate` of pkg/scheduler/manager/manager.go with the goroutines of `Parallelize` written out,
-- next to its model with one order of the pieces.
use orin_device_system.Common.{
  ℕ, zero, suc, List, [], ◌∷◌, map, none, some, true, ltb, Text, Text_discrete, length, get_elem?,
  length-map, ite, ◌-◌, ◌++◌, replicate, ◌≡◌, refl, arith, ap, ◌∙◌, Option-cases, inl, inr, Option,
}
use mathlib.Core.Option
use orin_device_system.Common.Sets.{IntSets, StringSets}
use orin_device_system.Allocator.{binpack_allocator, Allocator, Outcome, done, panic}
use orin_device_system.Pods.{Pod, build_request_orin_set}
use orin_device_system.Cache.{ScheduleCache}
use orin_device_system.Manager.Rounds.{mem, NodesSane}
use orin_device_system.Manager.Bind.Known.{Outcome-cases}
use orin_device_system.Manager.Filter.{IsSchedule, Answer, predicate-Answer}
use orin_device_system.Manager.{Filtered, pod_allocator, check_node, check_nodes, predicate}
use orin_device_system.Manager.Parallel.{Pool, pieces_from, run, parallelize, all_returned}
use orin_device_system.Manager.Parallel.Pieces.{weigh, work_all, run-Shared}

-- nodes[i]
unfoldable pub name_at : List Text → ℕ → Text
name_at nodes i = Option.get_or (get_elem? nodes i) []

module _ ⦃S : IntSets⦄ ⦃T : StringSets⦄ where
  -- `checkNodes` of `Predicate`, for piece `i`; a goroutine that panics ends the program, and a
  -- node beyond the end of the slice is such a panic.
  unfoldable pub check_piece :
      ScheduleCache
      → Option Allocator
      → S.IntSet
      → List Text
      → ℕ
      → Outcome Filtered
      → Outcome Filtered
  check_piece c allocator orin_request nodes i panic = panic
  check_piece c allocator orin_request nodes i (done f) = elim (get_elem? nodes i) [
    | none ↦ panic
    | some name ↦ check_node c allocator orin_request name f
  ]

  -- What the workers of `Predicate` share, after the turns of a schedule.
  unfoldable pub predicate_pool : ScheduleCache → List Text → Pod → List ℕ → Pool (Outcome Filtered)
  predicate_pool c nodes pod schedule =
      run (check_piece c (pod_allocator pod) (build_request_orin_set pod) nodes) schedule
        (parallelize 16 (length nodes) (done (record { nodes = []; failed = [] })))

  -- `Predicate`, for a schedule after which `wg.Wait` returns.
  unfoldable pub predicate_parallel : ScheduleCache → List Text → Pod → List ℕ → Outcome Filtered
  predicate_parallel c nodes pod schedule = elim (predicate_pool c nodes pod schedule).shared [
    | panic ↦ panic
    | done f ↦ done (record f { nodes = f.nodes ++ replicate (length nodes - length f.nodes) [] })
  ]

-- Whether a piece is beyond the nodes, and whether it is a node's.
unfoldable pub beyond : List Text → ℕ → ℕ
beyond nodes i = elim (get_elem? nodes i) [ none ↦ 1 | some name ↦ 0 ]

hits : List Text → Text → ℕ → ℕ
hits nodes x i = ite (Text_discrete x (name_at nodes i)) 1 0

mem-weigh :
    (nodes : List Text) (x : Text) (order : List ℕ)
    → mem x (map (name_at nodes) order) ≡ ltb 0 (weigh (hits nodes x) order)
unfolding mem weigh hits
mem-weigh nodes x [] = refl
mem-weigh nodes x (i ∷ order) = ground (arith, mem-weigh nodes x order)

pub weigh-shift :
    (g : ℕ → ℕ) (i n : ℕ)
    → weigh g (pieces_from (suc i) n) ≡ weigh (λ j. g (suc j)) (pieces_from i n)
unfolding weigh pieces_from
weigh-shift g i zero = refl
weigh-shift g i (suc n) = omega (arith, weigh-shift g (suc i) n)

mem-pieces :
    (nodes : List Text) (x : Text)
    → mem x nodes ≡ ltb 0 (weigh (hits nodes x) (pieces_from 0 (length nodes)))
unfolding mem weigh pieces_from hits name_at
mem-pieces [] x = refl
mem-pieces (y ∷ nodes) x =
    ground (arith, mem-pieces nodes x, weigh-shift (hits (y ∷ nodes) x) 0 (length nodes))

pub beyond-pieces : (nodes : List Text) → weigh (beyond nodes) (pieces_from 0 (length nodes)) ≡ 0
unfolding weigh pieces_from beyond
beyond-pieces [] = refl
beyond-pieces (y ∷ nodes) =
    omega (arith, beyond-pieces nodes, weigh-shift (beyond (y ∷ nodes)) 0 (length nodes))

one : ℕ → ℕ
one i = 1

length-weigh : (order : List ℕ) → length order ≡ weigh one order
unfolding weigh one
length-weigh [] = refl
length-weigh (i ∷ order) = omega (arith, length-weigh order)

weigh-pieces_from : (i n : ℕ) → weigh one (pieces_from i n) ≡ n
unfolding weigh pieces_from one
weigh-pieces_from i zero = refl
weigh-pieces_from i (suc n) = omega (arith, weigh-pieces_from (suc i) n)

module _ ⦃S : IntSets⦄ ⦃T : StringSets⦄ (c : ScheduleCache) (nodes : List Text) where
  module _ (a : Option Allocator) (request : S.IntSet) where
    check_piece-check_node :
        (i : ℕ) (f : Filtered)
        → beyond nodes i ≡ 0
        → check_piece c a request nodes i (done f) ≡ check_node c a request (name_at nodes i) f
    unfolding check_piece beyond name_at
    check_piece-check_node i f h = elim (Option-cases (get_elem? nodes i)) [
      | inl e ↦ absurd (ground (arith, e, h))
      | inr (name, e) ↦ rw (e, check_piece) refl
    ]

    work_all-panic : (order : List ℕ) → work_all (check_piece c a request nodes) order panic ≡ panic
    unfolding work_all check_piece
    work_all-panic [] = refl
    work_all-panic (i ∷ order) = work_all-panic order

    work_all-check_nodes :
        (order : List ℕ) (f : Filtered)
        → weigh (beyond nodes) order ≡ 0
        → work_all (check_piece c a request nodes) order (done f)
          ≡ check_nodes c a request (map (name_at nodes) order) f
    unfolding work_all check_nodes weigh
    work_all-check_nodes [] f h = refl
    work_all-check_nodes (i ∷ order) f h =
        ap (work_all (check_piece c a request nodes) order)
          (check_piece-check_node i f (omega (arith, h)))
        ∙ elim (Outcome-cases (check_node c a request (name_at nodes i) f)) [
          | inl p ↦ rw (p, check_nodes) (work_all-panic order)
          | inr (f', e) ↦ rw (e, check_nodes) (work_all-check_nodes order f' (omega (arith, h)))
        ]

  -- For every schedule after which all of its 16 workers have returned, `Predicate` gives what it
  -- gives when the nodes are checked one after the other, in some order that has each node as often
  -- as the request has it.
  pub predicate_parallel-predicate :
      (pod : Pod) (schedule : List ℕ)
      → all_returned (predicate_pool c nodes pod schedule).workers ≡ true
      → (order : List Text) × IsSchedule c nodes order pod
        × (predicate_parallel c nodes pod schedule ≡ predicate c nodes order pod)
  unfolding predicate_parallel predicate_pool predicate
  predicate_parallel-predicate pod schedule all =
      let a = pod_allocator pod in
      let request = build_request_orin_set pod in
      let start : Filtered = record { nodes = []; failed = [] } in
      let shared =
        run-Shared (check_piece c a request nodes) 16 (length nodes) schedule (done start)
          (omega arith) all in
      let order = map (name_at nodes) shared.order in
      let ran =
        shared.effect
        ∙ work_all-check_nodes a request shared.order start
            (shared.same (beyond nodes) ∙ beyond-pieces nodes) in
      (
        order,
        record {
          same_nodes = λ x. ground (
            arith,
            mem-weigh nodes x shared.order,
            shared.same (hits nodes x),
            mem-pieces nodes x,
          );
          same_length = omega (
            arith,
            length-map (name_at nodes) shared.order,
            length-weigh shared.order,
            shared.same one,
            weigh-pieces_from 0 (length nodes),
          );
        },
        rw (ran, predicate_parallel) refl,
      )

  -- For a pod with the binpack policy, where the free orins of every cached node are a sane map,
  -- and for every schedule after which all workers have returned: `Predicate` returns, and its
  -- answer is as the specification of the answer says.
  pub predicate_parallel-Answer :
      (pod : Pod) (schedule : List ℕ)
      → pod_allocator pod ≡ some binpack_allocator
      → NodesSane c (build_request_orin_set pod)
      → all_returned (predicate_pool c nodes pod schedule).workers ≡ true
      → (r : Filtered) × (predicate_parallel c nodes pod schedule ≡ done r)
        × ((order : List Text) × Answer c nodes order pod r)
  predicate_parallel-Answer pod schedule policy sane all =
      let (order, fair, same) = predicate_parallel-predicate pod schedule all in
      let (r, e, answer) = predicate-Answer c nodes order pod policy sane fair in
      (r, same ∙ e, (order, answer))
