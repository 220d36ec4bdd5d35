-- ===== src/Manager/Parallel/Pieces.antt =====
-- What the workers of `Parallelize` have done when all of them have returned: each piece once.
use orin_device_system.Common.{
  ℕ, zero, suc, ◌+◌, ◌<◌, List, [], ◌∷◌, ◌++◌, length, length-replicate, replicate, ltb, true,
  if◌then◌else◌, ◌≡◌, refl, arith, sym, ◌∙◌, ap,
}
use orin_device_system.Manager.Parallel.{
  Worker, receiving, processing, returned, Pool, pieces_from, advance, advance_nth, turn, run,
  parallelize, all_returned,
}

-- The sum of `g` over a list of pieces.
unfoldable pub weigh : (ℕ → ℕ) → List ℕ → ℕ
weigh g [] = 0
weigh g (i ∷ is) = g i + weigh g is

-- The sum over the pieces that are in `doWorkPiece`.
unfoldable weigh_workers : (ℕ → ℕ) → List Worker → ℕ
weigh_workers g [] = 0
weigh_workers g (receiving ∷ ws) = weigh_workers g ws
weigh_workers g (processing i ∷ ws) = g i + weigh_workers g ws
weigh_workers g (returned ∷ ws) = weigh_workers g ws

weigh-append : (g : ℕ → ℕ) (is js : List ℕ) → weigh g (is ++ js) ≡ weigh g is + weigh g js
unfolding weigh
weigh-append g [] js = omega arith
weigh-append g (i ∷ is) js = omega (arith, weigh-append g is js)

-- A worker returns when it finds the channel empty.
abbrev Drained : List ℕ → List Worker → Type 0
Drained to_process [] = Unit
Drained to_process (receiving ∷ ws) = Drained to_process ws
Drained to_process (processing i ∷ ws) = Drained to_process ws
Drained to_process (returned ∷ ws) = (to_process ≡ []) × Drained to_process ws

received-Drained :
    (i : ℕ) (to_process : List ℕ) (ws : List Worker)
    → Drained (i ∷ to_process) ws
    → Drained to_process ws
received-Drained i to_process [] d = tt
received-Drained i to_process (receiving ∷ ws) d = received-Drained i to_process ws d
received-Drained i to_process (processing j ∷ ws) d = received-Drained i to_process ws d
received-Drained i to_process (returned ∷ ws) (e, d) = cc

returned-Drained :
    (to_process : List ℕ) (ws : List Worker)
    → 0 < length ws
    → all_returned ws ≡ true
    → Drained to_process ws
    → to_process ≡ []
unfolding all_returned
returned-Drained to_process [] some_worker h d = absurd (omega (arith, some_worker))
returned-Drained to_process (receiving ∷ ws) some_worker h d = ground (arith, h)
returned-Drained to_process (processing i ∷ ws) some_worker h d = ground (arith, h)
returned-Drained to_process (returned ∷ ws) some_worker h (e, d) = e

Drained-replicate : (to_process : List ℕ) (n : ℕ) → Drained to_process (replicate n receiving)
Drained-replicate to_process zero = tt
Drained-replicate to_process (suc n) = Drained-replicate to_process n

weigh_workers-replicate : (g : ℕ → ℕ) (n : ℕ) → weigh_workers g (replicate n receiving) ≡ 0
unfolding weigh_workers
weigh_workers-replicate g zero = refl
weigh_workers-replicate g (suc n) = weigh_workers-replicate g n

weigh_workers-all_returned :
    (g : ℕ → ℕ) (ws : List Worker) → all_returned ws ≡ true → weigh_workers g ws ≡ 0
unfolding weigh_workers all_returned
weigh_workers-all_returned g [] h = refl
weigh_workers-all_returned g (receiving ∷ ws) h = ground (arith, h)
weigh_workers-all_returned g (processing i ∷ ws) h = ground (arith, h)
weigh_workers-all_returned g (returned ∷ ws) h = weigh_workers-all_returned g ws h

module _ {ℓ} {X : Type ℓ} (do_work_piece : ℕ → X → X) where
  -- The work of the pieces, one after the other.
  unfoldable pub work_all : List ℕ → X → X
  work_all [] x = x
  work_all (i ∷ is) x = work_all is (do_work_piece i x)

  work_all-append : (is js : List ℕ) (x : X) → work_all (is ++ js) x ≡ work_all js (work_all is x)
  unfolding work_all
  work_all-append [] js x = refl
  work_all-append (i ∷ is) js x = work_all-append is js (do_work_piece i x)

  moved_later :
      (ws ws' : List Worker) (m n n' : ℕ) (w : Worker) (g : ℕ → ℕ)
      → m + weigh_workers g ws' + n' ≡ weigh_workers g ws + n
      → m + weigh_workers g (w ∷ ws') + n' ≡ weigh_workers g (w ∷ ws) + n
  unfolding weigh_workers
  moved_later ws ws' m n n' receiving g h = h
  moved_later ws ws' m n n' (processing i) g h = omega (arith, h)
  moved_later ws ws' m n n' returned g h = h

  Drained-later :
      (ws ws' : List Worker) (to_process to_process' : List ℕ) (w : Worker)
      → (to_process ≡ [] → to_process' ≡ [])
      → (Drained to_process ws → Drained to_process' ws')
      → Drained to_process (w ∷ ws)
      → Drained to_process' (w ∷ ws')
  Drained-later ws ws' to_process to_process' receiving e d h = d h
  Drained-later ws ws' to_process to_process' (processing i) e d h = d h
  Drained-later ws ws' to_process to_process' returned e d h = (e h.0, d h.1)

  -- What a turn does: `worked` are the pieces whose work it did.
  record Advanced (ws : List Worker) (to_process : List ℕ) (x : X) (ws' : List Worker)
      (to_process' : List ℕ) (x' : X) : Type ℓ where
    worked : List ℕ
    effect : x' ≡ work_all worked x
    moved :
        (g : ℕ → ℕ)
        → weigh g worked + weigh_workers g ws' + weigh g to_process'
          ≡ weigh_workers g ws + weigh g to_process
    emptied : to_process ≡ [] → to_process' ≡ []
    drained : Drained to_process ws → Drained to_process' ws'
    staffed : length ws' ≡ length ws

  advance_nth-Advanced :
      (k : ℕ) (ws : List Worker) (to_process : List ℕ) (x : X)
      → let (ws', to_process', x') = advance_nth do_work_piece k ws to_process x in
        Advanced ws to_process x ws' to_process' x'
  unfolding advance_nth advance work_all weigh weigh_workers
  advance_nth-Advanced k [] to_process x = record {
    worked = [];
    effect = refl;
    moved = λ g. omega arith;
    emptied = λ h. h;
    drained = λ h. h;
    staffed = refl;
  }
  advance_nth-Advanced zero (receiving ∷ ws) [] x = record {
    worked = [];
    effect = refl;
    moved = λ g. omega arith;
    emptied = λ h. h;
    drained = λ d. (refl, d);
    staffed = refl;
  }
  advance_nth-Advanced zero (receiving ∷ ws) (i ∷ to_process) x = record {
    worked = [];
    effect = refl;
    moved = λ g. omega arith;
    emptied = λ h. cc;
    drained = λ d. received-Drained i to_process ws d;
    staffed = refl;
  }
  advance_nth-Advanced zero (processing i ∷ ws) to_process x = record {
    worked = i ∷ [];
    effect = refl;
    moved = λ g. omega arith;
    emptied = λ h. h;
    drained = λ d. d;
    staffed = refl;
  }
  advance_nth-Advanced zero (returned ∷ ws) to_process x = record {
    worked = [];
    effect = refl;
    moved = λ g. omega arith;
    emptied = λ h. h;
    drained = λ d. d;
    staffed = refl;
  }
  advance_nth-Advanced (suc k) (w ∷ ws) to_process x =
      later w (advance_nth-Advanced k ws to_process x)
    where
      later :
          {ws ws' : List Worker} {to_process to_process' : List ℕ} {x x' : X} (w : Worker)
          → Advanced ws to_process x ws' to_process' x'
          → Advanced (w ∷ ws) to_process x (w ∷ ws') to_process' x'
      later w a = record {
        worked = a.worked;
        effect = a.effect;
        moved = λ g. moved_later _ _ _ _ _ w g (a.moved g);
        emptied = a.emptied;
        drained = Drained-later _ _ _ _ w a.emptied a.drained;
        staffed = ap suc a.staffed;
      }

  run-Advanced :
      (schedule : List ℕ) (p : Pool X)
      → let p' = run do_work_piece schedule p in
        Advanced p.workers p.to_process p.shared p'.workers p'.to_process p'.shared
  unfolding run turn work_all weigh
  run-Advanced [] p = record {
    worked = [];
    effect = refl;
    moved = λ g. omega arith;
    emptied = λ h. h;
    drained = λ h. h;
    staffed = refl;
  }
  run-Advanced (k ∷ schedule) p =
      let a = advance_nth-Advanced k p.workers p.to_process p.shared in
      let b = run-Advanced schedule (turn do_work_piece k p) in
      record {
        worked = a.worked ++ b.worked;
        effect =
            b.effect
            ∙ (ap (work_all b.worked) a.effect ∙ sym (work_all-append a.worked b.worked p.shared));
        moved = λ g. omega (arith, weigh-append g a.worked b.worked, a.moved g, b.moved g);
        emptied = λ h. b.emptied (a.emptied h);
        drained = λ h. b.drained (a.drained h);
        staffed = b.staffed ∙ a.staffed;
      }

  -- The pieces of a call, each taken as often as it is in the channel at its start.
  pub record Shared (pieces : ℕ) (x x' : X) : Type ℓ where
    pub order : List ℕ
    pub effect : x' ≡ work_all order x
    pub same : (g : ℕ → ℕ) → weigh g order ≡ weigh g (pieces_from 0 pieces)

  pub run-Shared :
      (workers pieces : ℕ) (schedule : List ℕ) (x : X)
      → 0 < workers
      → let p' = run do_work_piece schedule (parallelize workers pieces x) in
        all_returned p'.workers ≡ true → Shared pieces x p'.shared
  unfolding parallelize weigh weigh_workers pieces_from
  run-Shared workers pieces schedule x some_worker all =
      let p = parallelize workers pieces x in
      let n = if ltb pieces workers then pieces else workers in
      let p' = run do_work_piece schedule p in
      let a = run-Advanced schedule p in
      record {
        order = a.worked;
        effect = a.effect;
        same = λ g. omega (
          arith,
          a.moved g,
          weigh_workers-all_returned g p'.workers all,
          weigh_workers-replicate g n,
          ap (weigh g) (emptied_end pieces p' a all some_worker),
        );
      }
    where
      emptied_end :
          (pieces : ℕ) (p' : Pool X)
          → let p = parallelize workers pieces x in
            Advanced p.workers p.to_process p.shared p'.workers p'.to_process p'.shared
            → all_returned p'.workers ≡ true
            → 0 < workers
            → p'.to_process ≡ []
      emptied_end zero p' a all some_worker = a.emptied refl
      emptied_end (suc pieces) p' a all some_worker =
          let n = if ltb (suc pieces) workers then suc pieces else workers in
          returned-Drained p'.to_process p'.workers
            (ground (arith, a.staffed, length-replicate n receiving, some_worker)) all
            (a.drained (Drained-replicate (pieces_from 0 (suc pieces)) n))
