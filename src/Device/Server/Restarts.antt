-- ===== src/Device/Server/Restarts.antt =====
-- Restarts of the plugin's server: which servers are left running, and when `Run` is stuck.
use orin_device_system.Common.{
  ℕ, suc, List, [], ◌∷◌, none, some, true, Text, ◌≡◌, ◌≢◌, refl, arith, ap, sym, ◌∙◌, subst,
}
use orin_device_system.Device.Server.{
  restarting, sending, selecting, returned, close_panic, PluginRun, Turn, event_received, member,
  serve, send_err, after_wait, after_register, receive_event, select_case, advance_run, run_plugin,
  run_start,
}
use orin_device_system.Device.Server.Soundness.{
  IsRunning, IsSound, first_open, first_open_least, is_serving, restart-serves, run-IsSound,
  served_on-IsSound, start-IsSound,
}

module _ {E : Type 0} where
  -- Whatever `Run` meets, it never closes a channel twice; of the servers that it has started, at
  -- most one, the last, has not been told to stop; and once it has returned, none.
  pub run_plugin-stops :
      (kubelet_socket : Text) (turns : List (Turn E))
      → let r = run_plugin kubelet_socket turns run_start in
        (r.phase ≢ close_panic)
        × ((c : ℕ) → IsRunning c r → (c ≡ r.sto_chan) × (r.phase ≢ returned))
  unfolding first_open
  run_plugin-stops socket turns =
      let r = run_plugin socket turns run_start in
      let s = run-IsSound socket turns run_start start-IsSound in
      (
        s.sound,
        λ c running.
            let unclosed = sym (s.stopped c) ∙ running.unstopped in
            let last : c ≡ r.sto_chan =
              ground (
                arith,
                s.started c running.started,
                unclosed,
                first_open_least r.phase r.sto_chan,
              ) in
            (last, λ e. ground (arith, unclosed, ap (λ p. first_open p r.sto_chan) e, last)),
      )

  run_plugin-sending :
      (socket : Text) (turns : List (Turn E)) (r : PluginRun E)
      → r.phase ≡ sending
      → run_plugin socket turns r ≡ r
  unfolding run_plugin advance_run
  run_plugin-sending socket [] r h = refl
  run_plugin-sending socket (t ∷ turns) r h =
      ap (λ p. run_plugin socket turns (advance_run socket t p r)) h
      ∙ run_plugin-sending socket turns r h

  receive_event-restarts :
      (socket : Text) (r : PluginRun E)
      → receive_event socket (record { name = socket; create = true }) r
        ≡ record r { phase = restarting }
  unfolding receive_event
  receive_event-restarts socket r = ground arith

  send_err-full :
      (e x : E) (xs : List E) (r : PluginRun E)
      → r.err_chan ≡ x ∷ xs
      → send_err e r ≡ record r { phase = sending }
  unfolding send_err
  send_err-full e x xs r h =
      ap
        (λ es. elim es [
          | [] ↦ record r { phase = selecting; err_chan = e ∷ [] }
          | _ ∷ _ ↦ record r { phase = sending }
        ])
        h

  -- In the select, with an error of `Register` still in `errChan`: if the select takes the event that
  -- the kubelet's socket was created, and the server starts again, but `Register` fails again, then
  -- `Run` sends on the full channel for ever, whatever comes later: it never returns, and its last
  -- server is never told to stop.
  pub run_plugin-blocks :
      (kubelet_socket : Text) (r : PluginRun E) (x e : E) (later : List (Turn E))
      → IsSound r
      → r.phase ≡ selecting
      → r.err_chan ≡ x ∷ []
      → let t : Turn E = record {
        listener = none;
        wait_error = none;
        register_error = some e;
        choice = event_received (record { name = kubelet_socket; create = true });
      } in
        let r' = run_plugin kubelet_socket (t ∷ t ∷ t ∷ t ∷ later) r in
        (r'.phase ≡ sending) × (r'.sto_chan ≡ suc r.sto_chan) × IsRunning r'.sto_chan r'
  unfolding run_plugin advance_run select_case after_wait after_register serve first_open member
      is_serving
  run_plugin-blocks socket r x e later s h full =
      let t : Turn E = record {
        listener = none;
        wait_error = none;
        register_error = some e;
        choice = event_received (record { name = socket; create = true });
      } in
      let stopped = record r { phase = restarting } in
      let stopped-IsSound =
        served_on-IsSound r selecting restarting r.err_chan h refl refl (λ e. cc) refl s.buffered
          s in
      let last = record r {
        phase = sending;
        sto_chan = suc r.sto_chan;
        closed = r.sto_chan ∷ r.closed;
        served = suc r.sto_chan ∷ r.served;
      } in
      let four : run_plugin socket (t ∷ t ∷ t ∷ t ∷ []) r ≡ last =
        ap (λ p. run_plugin socket (t ∷ t ∷ t ∷ []) (advance_run socket t p r)) h
        ∙ (ap (run_plugin socket (t ∷ t ∷ t ∷ [])) (receive_event-restarts socket r)
            ∙ (ap (run_plugin socket (t ∷ t ∷ []))
                  (restart-serves stopped none refl stopped-IsSound)
                ∙ send_err-full e x [] _ full)) in
      let all = ap (run_plugin socket later) four ∙ run_plugin-sending socket later last refl in
      subst
        (λ (r' : PluginRun E).
          (r'.phase ≡ sending) × (r'.sto_chan ≡ suc r.sto_chan) × IsRunning r'.sto_chan r')
        (sym all)
        (
          refl,
          refl,
          record {
            started = ground arith;
            unstopped =
                ground (arith, s.stopped (suc r.sto_chan), ap (λ p. first_open p r.sto_chan) h);
          },
        )
