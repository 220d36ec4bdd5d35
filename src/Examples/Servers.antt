-- ===== src/Examples/Servers.antt =====
-- The plugin's server and the keys of pods at concrete inputs.
use orin_device_system.Common.{
  ℕ, suc, ℕ_discrete, [], ◌∷◌, Option, none, some, true, Text, codes, ok, err, has_byte, ◌≡◌, ◌≢◌,
  refl,
}
use orin_device_system.Device.Locator.{PodInfo}
use orin_device_system.Device.Paths.{IsElement}
use orin_device_system.Device.Keys.{
  DeviceJson, new_pi, key, val, new_pi_from_raw, key_format, new_pi_from_raw-key,
}
use orin_device_system.Device.Server.{
  sending, selecting, returned, close_panic, PluginRun, Turn, event_received, stop_received,
  run_plugin, run_start, advance_run, restart, serve, send_err, member, close_sto_chan, after_wait,
  after_register,
}
use orin_device_system.Device.Server.Soundness.{IsRunning, run-IsSound, start-IsSound}
use orin_device_system.Device.Server.Restarts.{run_plugin-stops, run_plugin-blocks}

abbrev socket : Text
socket = codes "k"

-- The server starts, is registered unless `e` says otherwise, and is then told to stop.
abbrev calm : Option ℕ → Turn ℕ
calm e = record { listener = none; wait_error = none; register_error = e; choice = stop_received }

abbrev stopped : PluginRun ℕ
stopped = run_plugin socket (calm none ∷ calm none ∷ calm none ∷ calm none ∷ []) run_start

run_plugin-stops_example :
    (stopped.phase ≢ close_panic)
    × ((c : ℕ) → IsRunning c stopped → (c ≡ stopped.sto_chan) × (stopped.phase ≢ returned))
run_plugin-stops_example =
    run_plugin-stops socket (calm none ∷ calm none ∷ calm none ∷ calm none ∷ [])

-- The registration has failed once.
abbrev unregistered : PluginRun ℕ
unregistered = run_plugin socket (calm (some 7) ∷ calm (some 7) ∷ calm (some 7) ∷ []) run_start

unregistered_phase : unregistered.phase ≡ selecting
unfolding run_plugin advance_run restart serve send_err member close_sto_chan after_wait
    after_register
unregistered_phase = refl

unregistered_error : unregistered.err_chan ≡ 7 ∷ []
unfolding run_plugin advance_run restart serve send_err member close_sto_chan after_wait
    after_register
unregistered_error = refl

run_plugin-blocks_example :
    let t : Turn ℕ = record {
      listener = none;
      wait_error = none;
      register_error = some 8;
      choice = event_received (record { name = socket; create = true });
    } in
    let r' = run_plugin socket (t ∷ t ∷ t ∷ t ∷ calm none ∷ []) unregistered in
    (r'.phase ≡ sending) × (r'.sto_chan ≡ suc unregistered.sto_chan) × IsRunning r'.sto_chan r'
run_plugin-blocks_example =
    run_plugin-blocks socket unregistered 7 8 (calm none ∷ [])
      (run-IsSound socket (calm (some 7) ∷ calm (some 7) ∷ calm (some 7) ∷ []) run_start
        start-IsSound)
      unregistered_phase unregistered_error

-- A store of one map.
abbrev json : DeviceJson
json = record {
  JsonError = Unit {0};
  marshal = λ m. ok (codes "{}");
  unmarshal = λ bs m. (m, none);
}

abbrev pod_info : PodInfo
pod_info = new_pi (codes "d") (codes "p")

name-IsElement : IsElement (codes "p")
unfolding has_byte ℕ_discrete
name-IsElement = record { filled = refl; unsplit = refl; no_dot = λ e. cc; no_dots = λ e. cc }

new_pi_from_raw-key_example :
    (IsElement (codes "d") → new_pi_from_raw json (key pod_info) (val json pod_info) ≡ ok pod_info)
    × (codes "d" ≡ [] → new_pi_from_raw json (key pod_info) (val json pod_info) ≡ err key_format)
new_pi_from_raw-key_example =
    new_pi_from_raw-key json pod_info (codes "{}") refl refl name-IsElement
