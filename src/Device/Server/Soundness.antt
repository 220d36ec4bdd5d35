-- ===== src/Device/Server/Soundness.antt =====
-- The channels and the servers of the phases of `Run` (pkg/device/plugin/plugin.go), as an invariant.
use orin_device_system.Common.{
  ℕ, suc, ◌≤◌, List, [], ◌∷◌, Option, none, some, Bool, true, false, Text, ltb, length, ◌≡◌, ◌≢◌,
  refl, arith, ap, sym, ◌∙◌, ite, Text_discrete, Bool-cases, inl, inr, ◌⊎◌, subst,
}
use orin_device_system.Device.Server.{
  Phase, restarting, waiting, registering, sending, selecting, returned, close_panic, serve_panic,
  PluginRun, Turn, Event, err_received, event_received, stop_received, member, close_sto_chan,
  serve, restart, send_err, after_wait, after_register, receive_err, receive_event, select_case,
  advance_run, run_plugin, run_start,
}

-- The number of the first channel that is not closed.
unfoldable pub first_open : Phase → ℕ → ℕ
first_open returned n = suc n
first_open restarting n = n
first_open waiting n = n
first_open registering n = n
first_open sending n = n
first_open selecting n = n
first_open close_panic n = n
first_open serve_panic n = n

pub first_open_least : (p : Phase) (n : ℕ) → n ≤ first_open p n
unfolding first_open
first_open_least restarting n = omega arith
first_open_least waiting n = omega arith
first_open_least registering n = omega arith
first_open_least sending n = omega arith
first_open_least selecting n = omega arith
first_open_least returned n = omega arith
first_open_least close_panic n = omega arith
first_open_least serve_panic n = omega arith

-- Whether the server of the last channel was started.
unfoldable pub is_serving : Phase → Bool
is_serving restarting = false
is_serving serve_panic = false
is_serving close_panic = false
is_serving waiting = true
is_serving registering = true
is_serving sending = true
is_serving selecting = true
is_serving returned = true

List-cases : {A : Type 0} (xs : List A) → (xs ≡ []) ⊎ ((y : A) × (ys : List A) × (xs ≡ y ∷ ys))
List-cases [] = inl refl
List-cases (y ∷ ys) = inr (y, ys, refl)

module _ {E : Type 0} where
  -- The server was started, and its channel is not closed.
  pub record IsRunning (c : ℕ) (r : PluginRun E) : Type 0 where
    pub started : member c r.served ≡ true
    pub unstopped : member c r.closed ≡ false

  pub record IsSound (r : PluginRun E) : Type 0 where
    pub sound : r.phase ≢ close_panic
    pub stopped : (c : ℕ) → member c r.closed ≡ ltb c (first_open r.phase r.sto_chan)
    pub started : (c : ℕ) → member c r.served ≡ true → c ≤ r.sto_chan
    pub current : is_serving r.phase ≡ true → member r.sto_chan r.served ≡ true
    pub buffered : length r.err_chan ≤ 1

  module _ (r : PluginRun E) (q : Phase) (errs : List E) where
    -- A move that only changes the phase, and what is in `errChan`.
    moved-IsSound :
        q ≢ close_panic
        → first_open q r.sto_chan ≡ first_open r.phase r.sto_chan
        → (is_serving q ≡ true → is_serving r.phase ≡ true)
        → length errs ≤ 1
        → IsSound r
        → IsSound (record r { phase = q; err_chan = errs })
    moved-IsSound proper same serving buffer s = record {
      sound = proper;
      stopped = λ c. ground (arith, s.stopped c, same);
      started = s.started;
      current = λ h. s.current (serving h);
      buffered = buffer;
    }

  close_sto_chan-closes :
      (r : PluginRun E) (q : Phase)
      → first_open r.phase r.sto_chan ≡ r.sto_chan
      → IsSound r
      → close_sto_chan q r ≡ record r { phase = q; closed = r.sto_chan ∷ r.closed }
  unfolding close_sto_chan
  close_sto_chan-closes r q same s = ground (arith, s.stopped r.sto_chan, same)

  pub restart-serves :
      (r : PluginRun E) (e : Option E)
      → first_open r.phase r.sto_chan ≡ r.sto_chan
      → IsSound r
      → restart e r ≡ serve e (record r { phase = restarting; closed = r.sto_chan ∷ r.closed })
  unfolding restart close_sto_chan
  restart-serves r e same s = ground (arith, s.stopped r.sto_chan, same)

  close-IsSound :
      (r : PluginRun E) → r.phase ≡ selecting → IsSound r → IsSound (close_sto_chan returned r)
  unfolding member first_open is_serving
  close-IsSound r h s =
      let same = ap (λ p. first_open p r.sto_chan) h in
      subst IsSound (sym (close_sto_chan-closes r returned same s)) (record {
        sound = λ e. cc;
        stopped = λ c. ground (arith, s.stopped c, same);
        started = s.started;
        current = λ _. s.current (ap is_serving h);
        buffered = s.buffered;
      })

  serve-IsSound :
      (r : PluginRun E) (e : Option E)
      → first_open r.phase r.sto_chan ≡ r.sto_chan
      → IsSound r
      → IsSound (restart e r)
  unfolding member first_open is_serving serve
  serve-IsSound r none same s = subst IsSound (sym (restart-serves r none same s)) (record {
    sound = λ e. cc;
    stopped = λ c. ground (arith, s.stopped c, same);
    started = λ c h. ground (arith, s.started c, h);
    current = λ _. ground arith;
    buffered = s.buffered;
  })
  serve-IsSound r (some e) same s = subst IsSound (sym (restart-serves r (some e) same s)) (record {
    sound = λ e. cc;
    stopped = λ c. ground (arith, s.stopped c, same);
    started = λ c h. ground (arith, s.started c, h);
    current = λ h. ground (arith, h);
    buffered = s.buffered;
  })

  -- From a phase in which the last channel's server runs, to one that waits for something else.
  pub served_on-IsSound :
      (r : PluginRun E) (p q : Phase) (errs : List E)
      → r.phase ≡ p
      → first_open p r.sto_chan ≡ r.sto_chan
      → is_serving p ≡ true
      → q ≢ close_panic
      → first_open q r.sto_chan ≡ r.sto_chan
      → length errs ≤ 1
      → IsSound r
      → IsSound (record r { phase = q; err_chan = errs })
  served_on-IsSound r p q errs h same serving proper still buffer s =
      moved-IsSound r q errs proper (still ∙ sym (ap (λ p. first_open p r.sto_chan) h ∙ same))
        (λ _. ap is_serving h ∙ serving) buffer s

  send_err-IsSound :
      (e : E) (r : PluginRun E) → r.phase ≡ registering → IsSound r → IsSound (send_err e r)
  unfolding send_err first_open is_serving
  send_err-IsSound e r h s = elim (List-cases r.err_chan) [
    | inl empty ↦
        rw (empty, send_err)
          (served_on-IsSound r registering selecting (e ∷ []) h refl refl (λ e. cc) refl
            (omega arith) s)
    | inr (x, xs, full) ↦
        rw (full, send_err)
          (served_on-IsSound r registering sending r.err_chan h refl refl (λ e. cc) refl s.buffered
            s)
  ]

  receive_err-IsSound :
      (r : PluginRun E) → r.phase ≡ selecting → IsSound r → IsSound (receive_err r)
  unfolding receive_err first_open is_serving
  receive_err-IsSound r h s = elim (List-cases r.err_chan) [
    | inl empty ↦ rw (empty, receive_err) s
    | inr (x, xs, full) ↦
        rw (full, receive_err)
          (served_on-IsSound r selecting restarting xs h refl refl (λ e. cc) refl
            (omega (arith, s.buffered, ap length full)) s)
  ]

  receive_event-IsSound :
      (socket : Text) (event : Event) (r : PluginRun E)
      → r.phase ≡ selecting
      → IsSound r
      → IsSound (receive_event socket event r)
  unfolding receive_event first_open is_serving
  receive_event-IsSound socket event r h s =
      elim (Bool-cases (ite (Text_discrete event.name socket) event.create false)) [
        | inl again ↦
            rw (again, receive_event)
              (served_on-IsSound r selecting restarting r.err_chan h refl refl (λ e. cc) refl
                s.buffered s)
        | inr other ↦ rw (other, receive_event) s
      ]

  advance-IsSound :
      (socket : Text) (t : Turn E) (p : Phase) (r : PluginRun E)
      → r.phase ≡ p
      → IsSound r
      → IsSound (advance_run socket t p r)
  unfolding advance_run select_case after_wait after_register first_open is_serving
  advance-IsSound socket t restarting r h s =
      serve-IsSound r t.listener (ap (λ p. first_open p r.sto_chan) h) s
  advance-IsSound socket t waiting r h s = elim t.wait_error as (λ e. IsSound (after_wait e r)) [
    | none ↦
        served_on-IsSound r waiting registering r.err_chan h refl refl (λ e. cc) refl s.buffered s
    | some e ↦
        served_on-IsSound r waiting restarting r.err_chan h refl refl (λ e. cc) refl s.buffered s
  ]
  advance-IsSound socket t registering r h s =
      elim t.register_error as (λ e. IsSound (after_register e r)) [
        | none ↦
            served_on-IsSound r registering selecting r.err_chan h refl refl (λ e. cc) refl
              s.buffered s
        | some e ↦ send_err-IsSound e r h s
      ]
  advance-IsSound socket t sending r h s = s
  advance-IsSound socket t selecting r h s =
      elim t.choice as (λ c. IsSound (select_case socket c r)) [
        | err_received ↦ receive_err-IsSound r h s
        | event_received event ↦ receive_event-IsSound socket event r h s
        | stop_received ↦ close-IsSound r h s
      ]
  advance-IsSound socket t returned r h s = s
  advance-IsSound socket t close_panic r h s = s
  advance-IsSound socket t serve_panic r h s = s

  pub run-IsSound :
      (socket : Text) (turns : List (Turn E)) (r : PluginRun E)
      → IsSound r
      → IsSound (run_plugin socket turns r)
  unfolding run_plugin
  run-IsSound socket [] r s = s
  run-IsSound socket (t ∷ turns) r s =
      run-IsSound socket turns _ (advance-IsSound socket t r.phase r refl s)

  pub start-IsSound : IsSound run_start
  unfolding member first_open is_serving
  start-IsSound = record {
    sound = λ e. cc;
    stopped = λ c. ground arith;
    started = λ c h. ground (arith, h);
    current = λ h. ground (arith, h);
    buffered = omega arith;
  }
