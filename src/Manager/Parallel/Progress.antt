-- ===== src/Manager/Parallel/Progress.antt =====
-- Termination of `Parallelize`: each turn of a worker that has not returned brings the end nearer.
use orin_device_system.Common.{
  ℕ, zero, suc, ◌+◌, ◌*◌, ◌≤◌, ◌<◌, List, [], ◌∷◌, length, replicate, ltb, true, if◌then◌else◌, ◌≡◌,
  ◌⊎◌, inl, inr, refl, arith,
}
use orin_device_system.Manager.Parallel.{
  Worker, receiving, processing, returned, Pool, pieces_from, advance, advance_nth, turn, run,
  parallelize, all_returned, is_active,
}

-- The turns that the workers have left: each piece costs two, and the end of each loop one.
unfoldable pub turns_left : List Worker → ℕ
turns_left [] = 0
turns_left (receiving ∷ ws) = suc (turns_left ws)
turns_left (processing i ∷ ws) = 2 + turns_left ws
turns_left (returned ∷ ws) = turns_left ws

unfoldable pub work_left {ℓ} : {X : Type ℓ} → Pool X → ℕ
work_left p = 2 * length p.to_process + turns_left p.workers

length-pieces_from : (i n : ℕ) → length (pieces_from i n) ≡ n
unfolding pieces_from
length-pieces_from i zero = refl
length-pieces_from i (suc n) = omega (arith, length-pieces_from (suc i) n)

turns_left-replicate : (n : ℕ) → turns_left (replicate n receiving) ≡ n
unfolding turns_left
turns_left-replicate zero = refl
turns_left-replicate (suc n) = omega (arith, turns_left-replicate n)

-- Either every worker has returned, or one of them can take a turn.
turns_progress : (ws : List Worker) → (all_returned ws ≡ true) ⊎ ((k : ℕ) × (is_active k ws ≡ true))
unfolding all_returned is_active
turns_progress [] = inl refl
turns_progress (receiving ∷ ws) = inr (0, refl)
turns_progress (processing i ∷ ws) = inr (0, refl)
turns_progress (returned ∷ ws) = elim (turns_progress ws) [
  | inl all ↦ inl all
  | inr (k, a) ↦ inr (suc k, a)
]

active-turns_left : (ws : List Worker) (k : ℕ) → is_active k ws ≡ true → 0 < turns_left ws
unfolding turns_left is_active
active-turns_left [] k a = ground (arith, a)
active-turns_left (receiving ∷ ws) k a = omega arith
active-turns_left (processing i ∷ ws) k a = omega arith
active-turns_left (returned ∷ ws) zero a = ground (arith, a)
active-turns_left (returned ∷ ws) (suc k) a = active-turns_left ws k a

returned-turns_left : (ws : List Worker) → turns_left ws ≡ 0 → all_returned ws ≡ true
unfolding turns_left all_returned
returned-turns_left [] h = refl
returned-turns_left (receiving ∷ ws) h = absurd (omega (arith, h))
returned-turns_left (processing i ∷ ws) h = absurd (omega (arith, h))
returned-turns_left (returned ∷ ws) h = returned-turns_left ws h

module _ {ℓ} {X : Type ℓ} (do_work_piece : ℕ → X → X) where
  advance-left :
      (k : ℕ) (ws : List Worker) (to_process : List ℕ) (x : X)
      → is_active k ws ≡ true
      → let (ws', to_process', x') = advance_nth do_work_piece k ws to_process x in
        2 * length to_process + turns_left ws ≡ suc (2 * length to_process' + turns_left ws')
  unfolding advance_nth advance turns_left is_active
  advance-left k [] to_process x a = ground (arith, a)
  advance-left zero (receiving ∷ ws) [] x a = omega arith
  advance-left zero (receiving ∷ ws) (i ∷ to_process) x a = omega arith
  advance-left zero (processing i ∷ ws) to_process x a = omega arith
  advance-left zero (returned ∷ ws) to_process x a = ground (arith, a)
  advance-left (suc k) (receiving ∷ ws) to_process x a =
      omega (arith, advance-left k ws to_process x a)
  advance-left (suc k) (processing i ∷ ws) to_process x a =
      omega (arith, advance-left k ws to_process x a)
  advance-left (suc k) (returned ∷ ws) to_process x a = advance-left k ws to_process x a

  turn-work_left :
      (k : ℕ) (p : Pool X)
      → is_active k p.workers ≡ true
      → work_left p ≡ suc (work_left (turn do_work_piece k p))
  unfolding turn work_left
  turn-work_left k p a = advance-left k p.workers p.to_process p.shared a

  -- Every turn of the schedule is that of a worker that has not returned.
  abbrev pub IsBusy : List ℕ → Pool X → Type 0
  IsBusy [] p = Unit
  IsBusy (k ∷ schedule) p =
      (is_active k p.workers ≡ true) × IsBusy schedule (turn do_work_piece k p)

  run-work_left :
      (schedule : List ℕ) (p : Pool X)
      → IsBusy schedule p
      → work_left p ≡ length schedule + work_left (run do_work_piece schedule p)
  unfolding run
  run-work_left [] p busy = omega arith
  run-work_left (k ∷ schedule) p (a, busy) =
      omega (arith, turn-work_left k p a, run-work_left schedule (turn do_work_piece k p) busy)

  -- The workers can take turns until all have returned.
  finish :
      (n : ℕ) (p : Pool X)
      → work_left p ≡ n
      → (schedule : List ℕ) × IsBusy schedule p
        × (all_returned (run do_work_piece schedule p).workers ≡ true)
  unfolding run work_left
  finish zero p h = ([], tt, returned-turns_left p.workers (omega (arith, h)))
  finish (suc n) p h = elim (turns_progress p.workers) [
    | inl all ↦ ([], tt, all)
    | inr (k, a) ↦
        let (schedule, busy, all) =
          finish n (turn do_work_piece k p) (omega (arith, h, turn-work_left k p a)) in
        (k ∷ schedule, (a, busy), all)
  ]

  work_left-parallelize :
      (workers pieces : ℕ) (x : X)
      → work_left (parallelize workers pieces x)
        ≡ 2 * pieces + (if ltb pieces workers then pieces else workers)
  unfolding work_left parallelize
  work_left-parallelize workers pieces x = omega (
    arith,
    length-pieces_from 0 pieces,
    turns_left-replicate (if ltb pieces workers then pieces else workers),
  )

  -- The call always ends: the workers can take their turns in some order until all have returned;
  -- and a schedule in which each turn is that of a worker that has not returned never has more than
  -- two turns for each piece and one for each of the workers, and when it has that many, all have
  -- returned.
  pub parallelize-ends :
      (workers pieces : ℕ) (x : X)
      → let p = parallelize workers pieces x in
        let bound = 2 * pieces + (if ltb pieces workers then pieces else workers) in
        ((schedule : List ℕ) × IsBusy schedule p
          × (all_returned (run do_work_piece schedule p).workers ≡ true))
        × ((schedule : List ℕ)
            → IsBusy schedule p
            → (length schedule ≤ bound)
              × ((length schedule ≡ bound)
                  → all_returned (run do_work_piece schedule p).workers ≡ true))
  unfolding work_left
  parallelize-ends workers pieces x =
      let p = parallelize workers pieces x in
      (
        finish (work_left p) p refl,
        λ schedule busy.
            let spent = run-work_left schedule p busy in
            let all = work_left-parallelize workers pieces x in
            (
              omega (arith, spent, all),
              λ h.
                  returned-turns_left (run do_work_piece schedule p).workers
                    (omega (arith, spent, all, h)),
            ),
      )
