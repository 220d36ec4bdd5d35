-- ===== src/Commands/Signals.antt =====
-- cmd/scheduler/scheduler.go: `SetupSignalHandler`. The first signal closes the stop channel, the
-- second ends the program.
use orin_device_system.Common.{
  ℕ, zero, suc, Option, none, some, Bool, true, false, ltb, if◌then◌else◌, ◌≡◌, refl, arith,
}
use orin_device_system.Allocator.{Outcome, done, panic}

pub record SignalState : Type 0 where
  pub stop_closed : Bool
  pub exit_code : Option ℕ

abbrev pub signal_start : SignalState
signal_start = record { stop_closed = false; exit_code = none }

-- `closed` says whether the channel onlyOneSignalHandler is closed already.
unfoldable pub setup_signal_handler : Bool → Outcome SignalState
setup_signal_handler closed = if closed then panic else done signal_start

unfoldable pub on_signal : SignalState → SignalState
on_signal s =
    if s.stop_closed then record s { exit_code = some 1 } else record s { stop_closed = true }

unfoldable pub on_signals : ℕ → SignalState → SignalState
on_signals zero s = s
on_signals (suc n) s = on_signals n (on_signal s)

exited :
    (n : ℕ) (s : SignalState)
    → s.stop_closed ≡ true
    → s.exit_code ≡ some 1
    → ((on_signals n s).stop_closed ≡ true) × ((on_signals n s).exit_code ≡ some 1)
unfolding on_signals on_signal
exited zero s h e = (h, e)
exited (suc n) s h e = exited n (on_signal s) (ground (arith, h)) (ground (arith, h))

-- After `n` signals the stop channel is closed if there was one, and the program has ended with the
-- exit code 1 if there were two.
pub on_signals-shutdown :
    (n : ℕ)
    → ((on_signals n signal_start).stop_closed ≡ ltb 0 n)
      × ((on_signals n signal_start).exit_code ≡ (if ltb 1 n then some 1 else none))
unfolding on_signals on_signal
on_signals-shutdown zero = (refl, refl)
on_signals-shutdown (suc zero) = (refl, refl)
on_signals-shutdown (suc (suc n)) =
    let (closed, exits) = exited n (on_signal (on_signal signal_start)) refl refl in
    (ground (arith, closed), ground (arith, exits))
