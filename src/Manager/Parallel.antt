-- ===== src/Manager/Parallel.antt =====
-- pkg/scheduler/manager/util.go: `Parallelize`. Its goroutines share the channel of pieces and what
-- the pieces write; a schedule says whose turn it is, any number of times.
pub mod Progress
pub mod Pieces
pub mod Calls
pub mod Scores
pub mod Slots
use orin_device_system.Common.{
  ℕ, zero, suc, Bool, true, false, List, [], ◌∷◌, ltb, if◌then◌else◌, replicate,
}

-- One goroutine: at the head of its `range` loop, in `doWorkPiece`, or after `wg.Done`.
pub data Worker : Type 0 where
  receiving : Worker
  processing : (piece : ℕ) → Worker
  returned : Worker

module _ {ℓ} (X : Type ℓ) where
  pub record Pool : Type ℓ where
    pub to_process : List ℕ
    pub workers : List Worker
    pub shared : X

-- the pieces from `i` on, `n` of them
unfoldable pub pieces_from : ℕ → ℕ → List ℕ
pieces_from i zero = []
pieces_from i (suc n) = i ∷ pieces_from (suc i) n

module _ {ℓ} {X : Type ℓ} (do_work_piece : ℕ → X → X) where
  -- One turn of a worker: it receives a piece, or finds the closed channel empty and returns, or
  -- does the work of its piece.
  unfoldable pub advance : Worker → List ℕ → X → Worker × List ℕ × X
  advance receiving (i ∷ to_process) x = (processing i, to_process, x)
  advance receiving [] x = (returned, [], x)
  advance (processing i) to_process x = (receiving, to_process, do_work_piece i x)
  advance returned to_process x = (returned, to_process, x)

  unfoldable pub advance_nth : ℕ → List Worker → List ℕ → X → List Worker × List ℕ × X
  advance_nth k [] to_process x = ([], to_process, x)
  advance_nth zero (w ∷ ws) to_process x =
      let (w', to_process', x') = advance w to_process x in (w' ∷ ws, to_process', x')
  advance_nth (suc k) (w ∷ ws) to_process x =
      let (ws', to_process', x') = advance_nth k ws to_process x in (w ∷ ws', to_process', x')

  unfoldable pub turn : ℕ → Pool X → Pool X
  turn k p =
      let (ws, to_process, x) = advance_nth k p.workers p.to_process p.shared in
      record { to_process = to_process; workers = ws; shared = x }

  unfoldable pub run : List ℕ → Pool X → Pool X
  run [] p = p
  run (k ∷ schedule) p = run schedule (turn k p)

-- `Parallelize` up to `wg.Wait`: the pieces are in the closed channel, and no more workers run than
-- there are pieces.
unfoldable pub parallelize {ℓ} : {X : Type ℓ} → ℕ → ℕ → X → Pool X
parallelize workers pieces x = record {
  to_process = pieces_from 0 pieces;
  workers = replicate (if ltb pieces workers then pieces else workers) receiving;
  shared = x;
}

-- `wg.Wait` returns: every worker is done.
unfoldable pub all_returned : List Worker → Bool
all_returned [] = true
all_returned (returned ∷ ws) = all_returned ws
all_returned (receiving ∷ ws) = false
all_returned (processing i ∷ ws) = false

-- Worker `k` exists and has not returned.
unfoldable pub is_active : ℕ → List Worker → Bool
is_active k [] = false
is_active zero (receiving ∷ ws) = true
is_active zero (processing i ∷ ws) = true
is_active zero (returned ∷ ws) = false
is_active (suc k) (w ∷ ws) = is_active k ws
