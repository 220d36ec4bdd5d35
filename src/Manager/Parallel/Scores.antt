-- ===== src/Manager/Parallel/Scores.antt =====
-- The scores of `Priority` of pkg/scheduler/manager/manager.go under any schedule of its workers.
use orin_device_system.Common.{
  ℕ, zero, suc, ◌≤◌, ◌<◌, dec_lt, ℕ_discrete, ℤ, pos, List, [], ◌∷◌, none, some, true, ltb, Text,
  length, get_elem?, length-replicate, replicate, ◌≡◌, ◌⊎◌, refl, arith, sym, if◌then◌else◌, ap,
  ◌∙◌, Option-cases, inl, inr, Option,
}
use mathlib.Core.Option
use orin_device_system.Common.Sets.{IntSets, StringSets}
use orin_device_system.Allocator.{Allocator, Outcome, done, panic}
use orin_device_system.Pods.{Pod, build_request_orin_set}
use orin_device_system.Cache.{ScheduleCache}
use orin_device_system.Manager.Bind.Known.{Outcome-cases}
use orin_device_system.Manager.{pod_allocator, score_node, score_nodes, priority}
use orin_device_system.Manager.Parallel.{all_returned}
use orin_device_system.Manager.Parallel.Pieces.{weigh, work_all, run-Shared}
use orin_device_system.Manager.Parallel.Calls.{beyond, beyond-pieces}
use orin_device_system.Manager.Parallel.Slots.{
  content_step, elements_equal, get-inside, is_piece, length-set_nth, priority_parallel,
  priority_pool, score_piece, score_slot, set_nth, weigh-is_piece,
}

module _ ⦃S : IntSets⦄ ⦃T : StringSets⦄ (c : ScheduleCache) (a : Option Allocator)
    (request : S.IntSet) where
  -- The score of each node, or one whose worker panics.
  record Scored (nodes : List Text) (scores : List ℤ) : Type 0 where
    whole : score_nodes c a request nodes ≡ done scores
    as_long : length scores ≡ length nodes
    each :
        (i : ℕ) (name : Text)
        → get_elem? nodes i ≡ some name
        → (s : ℤ) × (score_node c a request name ≡ done s) × (get_elem? scores i ≡ some s)

  record Panics (nodes : List Text) : Type 0 where
    whole : score_nodes c a request nodes ≡ panic
    index : ℕ
    inside : index < length nodes
    name : Text
    named : get_elem? nodes index ≡ some name
    panics : score_node c a request name ≡ panic

  score_nodes-cases : (nodes : List Text) → Panics nodes ⊎ ((scores : List ℤ) × Scored nodes scores)
  unfolding score_nodes
  score_nodes-cases [] = inr (
    [],
    record { whole = refl; as_long = refl; each = λ i name e. absurd (Option.none-ne-some name e) },
  )
  score_nodes-cases (n ∷ nodes) = elim (Outcome-cases (score_node c a request n)) [
    | inl p ↦ inl (record {
      whole = rw (p, score_nodes) refl;
      index = 0;
      inside = omega arith;
      name = n;
      named = refl;
      panics = p;
    })
    | inr (s, e) ↦ (elim (score_nodes-cases nodes) [
      | inl p ↦ inl (record {
        whole = rw (e, score_nodes) (rw (p.whole, score_nodes) refl);
        index = suc p.index;
        inside = omega (arith, p.inside);
        name = p.name;
        named = p.named;
        panics = p.panics;
      })
      | inr (scores, r) ↦ inr (
        s ∷ scores,
        record {
          whole = rw (e, score_nodes) (rw (r.whole, score_nodes) refl);
          as_long = ap suc r.as_long;
          each = each_later s scores e r.each;
        },
      )
    ])
  ]
    where
      each_later :
          (s : ℤ) (scores : List ℤ)
          → score_node c a request n ≡ done s
          → ((i : ℕ) (name : Text)
              → get_elem? nodes i ≡ some name
              → (s : ℤ) × (score_node c a request name ≡ done s) × (get_elem? scores i ≡ some s))
          → (i : ℕ) (name : Text) → get_elem? (n ∷ nodes) i ≡ some name
          → (t : ℤ) × (score_node c a request name ≡ done t) × (get_elem? (s ∷ scores) i ≡ some t)
      each_later s scores e h zero name k =
          (s, ap (score_node c a request) (sym (Option.some-injective n name k)) ∙ e, refl)
      each_later s scores e h (suc i) name k = h i name k

  module _ (nodes : List Text) where
    score_panic : (order : List ℕ) → work_all (score_piece c a request nodes) order panic ≡ panic
    unfolding work_all score_piece
    score_panic [] = refl
    score_panic (i ∷ order) = score_panic order

    score_piece-named :
        (i : ℕ) (name : Text) (scores : List ℤ)
        → get_elem? nodes i ≡ some name
        → score_piece c a request nodes i (done scores)
          ≡ score_slot i scores (score_node c a request name)
    unfolding score_piece
    score_piece-named i name scores e = rw (e, score_piece) refl

    score_piece-Panics :
        (i : ℕ) (p : Panics nodes) (o : Outcome (List ℤ))
        → i ≡ p.index
        → score_piece c a request nodes i o ≡ panic
    unfolding score_piece score_slot
    score_piece-Panics i p panic e = refl
    score_piece-Panics i p (done scores) e =
        score_piece-named i p.name scores (ap (get_elem? nodes) e ∙ p.named)
        ∙ ap (score_slot i scores) p.panics

    -- A piece that panics makes the whole panic.
    work_all-Panics :
        (order : List ℕ) (o : Outcome (List ℤ)) (p : Panics nodes)
        → 0 < weigh (is_piece p.index) order
        → work_all (score_piece c a request nodes) order o ≡ panic
    unfolding work_all weigh is_piece
    work_all-Panics [] o p h = absurd (omega (arith, h))
    work_all-Panics (i ∷ order) o p h = elim (ℕ_discrete i p.index) [
      | yes e ↦
          ap (work_all (score_piece c a request nodes) order) (score_piece-Panics i p o e)
          ∙ score_panic order
      | no e ↦ work_all-Panics order (score_piece c a request nodes i o) p (ground (arith, e, h))
    ]

    -- The slots that have been written hold their scores.
    record Written (scores start : List ℤ) (order : List ℕ) (o : Outcome (List ℤ)) : Type 0 where
      slots : List ℤ
      result : o ≡ done slots
      as_long : length slots ≡ length nodes
      content :
          (j : ℕ)
          → get_elem? slots j
            ≡ (if ltb 0 (weigh (is_piece j) order) then get_elem? scores j else get_elem? start j)

    beyond-inside : (i : ℕ) → beyond nodes i ≡ 0 → (name : Text) × (get_elem? nodes i ≡ some name)
    unfolding beyond
    beyond-inside i h = elim (Option-cases (get_elem? nodes i)) [
      | inl e ↦ absurd (ground (arith, e, h))
      | inr found ↦ found
    ]

    work_all-Written :
        (scores : List ℤ) (r : Scored nodes scores) (order : List ℕ) (start : List ℤ)
        → length start ≡ length nodes
        → weigh (beyond nodes) order ≡ 0
        → Written scores start order (work_all (score_piece c a request nodes) order (done start))
    unfolding work_all weigh is_piece score_slot
    work_all-Written scores r [] start same h = record {
      slots = start;
      result = refl;
      as_long = same;
      content = λ j. refl;
    }
    work_all-Written scores r (i ∷ order) start same h =
        let (name, named) = beyond-inside i (omega (arith, h)) in
        let (s, scored, slot) = r.each i name named in
        let start' = set_nth i s start in
        let now = score_piece-named i name start named ∙ ap (score_slot i start) scored in
        let later =
          work_all-Written scores r order start' (length-set_nth i s start ∙ same)
            (omega (arith, h)) in
        record {
          slots = later.slots;
          result = ap (work_all (score_piece c a request nodes) order) now ∙ later.result;
          as_long = later.as_long;
          content = λ j.
              content_step i j _ s _ scores start slot
                (omega (arith, same, get-inside nodes i name named)) (later.content j);
        }

    written-scores :
        (scores start : List ℤ) (r : Scored nodes scores) (order : List ℕ) (o : Outcome (List ℤ))
        → ((j : ℕ) → j < length nodes → 0 < weigh (is_piece j) order)
        → Written scores start order o
        → o ≡ done scores
    written-scores scores start r order o covered w =
        w.result ∙ ap done (elements_equal w.slots scores (λ j. slot j))
      where
        outside : (xs : List ℤ) (j : ℕ) → length xs ≤ j → get_elem? xs j ≡ none
        outside [] j h = refl
        outside (x ∷ xs) zero h = absurd (omega (arith, h))
        outside (x ∷ xs) (suc j) h = outside xs j (omega (arith, h))

        slot : (j : ℕ) → get_elem? w.slots j ≡ get_elem? scores j
        slot j = elim (dec_lt j (length nodes)) [
          | yes inside ↦ ground (arith, w.content j, covered j inside)
          | no beyond_end ↦
              outside w.slots j (omega (arith, beyond_end, w.as_long))
              ∙ sym (outside scores j (omega (arith, beyond_end, r.as_long)))
        ]

module _ ⦃S : IntSets⦄ ⦃T : StringSets⦄ (c : ScheduleCache) (nodes : List Text) where
  -- For every schedule after which all of its 16 workers have returned, `Priority` gives the same
  -- scores, or the same panic: those of scoring the nodes one after the other.
  pub priority_parallel-priority :
      (pod : Pod) (schedule : List ℕ)
      → all_returned (priority_pool c nodes pod schedule).workers ≡ true
      → priority_parallel c nodes pod schedule ≡ priority c nodes pod
  unfolding priority_parallel priority_pool priority
  priority_parallel-priority pod schedule all =
      let a = pod_allocator pod in
      let request = build_request_orin_set pod in
      let start = replicate (length nodes) (pos 0) in
      let shared =
        run-Shared (score_piece c a request nodes) 16 (length nodes) schedule (done start)
          (omega arith) all in
      let covered : (j : ℕ) → j < length nodes → 0 < weigh (is_piece j) shared.order =
        λ j h. omega (arith, shared.same (is_piece j), weigh-is_piece j (length nodes) h) in
      elim (score_nodes-cases c a request nodes) [
        | inl p ↦
            rw
              (
                shared.effect
                    ∙ work_all-Panics c a request nodes shared.order (done start) p
                        (covered p.index p.inside),
                priority_parallel,
              )
              (rw (p.whole, priority) refl)
        | inr (scores, r) ↦
            rw
              (
                shared.effect
                    ∙ written-scores c a request nodes scores start r shared.order _ covered (
                        work_all-Written c a request nodes scores r shared.order start
                          (length-replicate (length nodes) (pos 0))
                          (shared.same (beyond nodes) ∙ beyond-pieces nodes)),
                priority_parallel,
              )
              (rw (r.whole, priority) refl)
      ]
