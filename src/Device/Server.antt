-- ===== src/Device/Server.antt =====
-- pkg/device/plugin/plugin.go: the life of one plugin's gRPC server, which `Run` starts again after
-- errors and when the kubelet comes back. What gRPC, the kubelet and the file watcher answer are
-- inputs. A channel is its number; the server of a channel is told to stop when it is closed.
pub mod Restarts
pub mod Soundness
use orin_device_system.Common.{
  ℕ, suc, ◌==◌, List, [], ◌∷◌, ◌++◌, Option, none, some, Bool, true, false, ◌||◌, ◌&&◌, Text,
  Text_discrete, ite, if◌then◌else◌,
}
use orin_device_system.Device.Plugin.{DevicePluginServer}

-- The request of `Register`.
pub record RegisterRequest : Type 0 where
  pub version : Text
  pub endpoint : Text
  pub resource_name : Text
  pub pre_start_required : Bool

unfoldable pub register_request : Text → DevicePluginServer → RegisterRequest
register_request version p = record {
  version = version;
  endpoint = p.endpoint;
  resource_name = p.resource_name;
  pre_start_required = true;
}

-- The watcher of `NewFSWatcher`.
pub record Watcher : Type 0 where
  pub watched : List Text
  pub is_open : Bool

module _ {E : Type 0} where
  -- `register`: an error of the dial, or of the call.
  unfoldable pub register :
      Text → (RegisterRequest → Option E) → Option E → DevicePluginServer → Option E
  register version call (some e) p = some e
  register version call none p = call (register_request version p)

  -- `Wait`: an error of the dial, or of closing the connection.
  unfoldable pub wait : Option E → Option E → Option E
  wait (some e) close = some e
  wait none close = close

  unfoldable pub add_files : (Text → Option E) → List Text → Watcher → Watcher × Option E
  add_files add [] w = (w, none)
  add_files add (f ∷ files) w = elim (add f) [
    | some e ↦ (record w { is_open = false }, some e)
    | none ↦ add_files add files (record w { watched = w.watched ++ f ∷ [] })
  ]

  unfoldable pub new_fs_watcher :
      Option E → (Text → Option E) → List Text → Option Watcher × Option E
  new_fs_watcher (some e) add files = (none, some e)
  new_fs_watcher none add files =
      let (w, e) = add_files add files (record { watched = []; is_open = true }) in
      elim e [ none ↦ (some w, none) | some e ↦ (none, some e) ]

-- Where `Run` is: at `restart`, in `Wait`, in `Register`, in `errChan <- err`, in the select, or at
-- an end: of the function, of `close` of a closed channel, or of `Serve` without a listener.
pub data Phase : Type 0 where
  restarting waiting registering sending selecting returned close_panic serve_panic : Phase

pub record PluginRun (E : Type 0) : Type 0 where
  pub phase : Phase
  pub sto_chan : ℕ
  pub closed : List ℕ
  pub served : List ℕ
  pub err_chan : List E

-- An event of the watcher, and whether its `Op` has the bit of `Create`.
pub record Event : Type 0 where
  pub name : Text
  pub create : Bool

-- The case that the select takes.
pub data Choice : Type 0 where
  err_received : Choice
  event_received : Event → Choice
  stop_received : Choice

-- What `Run` meets at its next move, of which it consults what it waits for: the error of
-- `net.Listen` in `Serve`, those of `Wait` and `Register`, and the choice of the select.
pub record Turn (E : Type 0) : Type 0 where
  pub listener : Option E
  pub wait_error : Option E
  pub register_error : Option E
  pub choice : Choice

unfoldable pub member : ℕ → List ℕ → Bool
member c [] = false
member c (d ∷ cs) = c == d || member c cs

module _ {E : Type 0} where
  -- `close`, which panics on a closed channel
  unfoldable pub close_sto_chan : Phase → PluginRun E → PluginRun E
  close_sto_chan next r =
      if member r.sto_chan r.closed
      then record r { phase = close_panic }
      else record r { phase = next; closed = r.sto_chan ∷ r.closed }

  -- `Serve` of the new channel
  unfoldable pub serve : Option E → PluginRun E → PluginRun E
  serve (some e) r = record r { phase = serve_panic; sto_chan = suc r.sto_chan }
  serve none r = record r {
    phase = waiting;
    sto_chan = suc r.sto_chan;
    served = suc r.sto_chan ∷ r.served;
  }

  -- from the label `restart` to `Serve`
  unfoldable pub restart : Option E → PluginRun E → PluginRun E
  restart listener r =
      if member r.sto_chan r.closed
      then close_sto_chan restarting r
      else serve listener (close_sto_chan restarting r)

  -- `errChan <- err`, on a channel for one error that only `Run` itself receives from
  unfoldable pub send_err : E → PluginRun E → PluginRun E
  send_err e r = elim r.err_chan [
    | [] ↦ record r { phase = selecting; err_chan = e ∷ [] }
    | _ ∷ _ ↦ record r { phase = sending }
  ]

  unfoldable pub after_wait : Option E → PluginRun E → PluginRun E
  after_wait (some e) r = record r { phase = restarting }
  after_wait none r = record r { phase = registering }

  unfoldable pub after_register : Option E → PluginRun E → PluginRun E
  after_register (some e) r = send_err e r
  after_register none r = record r { phase = selecting }

  unfoldable pub receive_err : PluginRun E → PluginRun E
  receive_err r = elim r.err_chan [
    | [] ↦ r
    | _ ∷ errs ↦ record r { phase = restarting; err_chan = errs }
  ]

  unfoldable pub receive_event : Text → Event → PluginRun E → PluginRun E
  receive_event kubelet_socket event r =
      if ite (Text_discrete event.name kubelet_socket) event.create false
      then record r { phase = restarting }
      else r

  unfoldable pub select_case : Text → Choice → PluginRun E → PluginRun E
  select_case kubelet_socket err_received r = receive_err r
  select_case kubelet_socket (event_received event) r = receive_event kubelet_socket event r
  select_case kubelet_socket stop_received r = close_sto_chan returned r

  -- The next move of `Run` in a phase: none while it sends on the full channel, nor after an end.
  unfoldable pub advance_run : Text → Turn E → Phase → PluginRun E → PluginRun E
  advance_run kubelet_socket t restarting r = restart t.listener r
  advance_run kubelet_socket t waiting r = after_wait t.wait_error r
  advance_run kubelet_socket t registering r = after_register t.register_error r
  advance_run kubelet_socket t sending r = r
  advance_run kubelet_socket t selecting r = select_case kubelet_socket t.choice r
  advance_run kubelet_socket t returned r = r
  advance_run kubelet_socket t close_panic r = r
  advance_run kubelet_socket t serve_panic r = r

  unfoldable pub run_plugin : Text → List (Turn E) → PluginRun E → PluginRun E
  run_plugin kubelet_socket [] r = r
  run_plugin kubelet_socket (t ∷ turns) r =
      run_plugin kubelet_socket turns (advance_run kubelet_socket t r.phase r)

  -- before the label `restart`
  abbrev pub run_start : PluginRun E
  run_start = record { phase = restarting; sto_chan = 0; closed = []; served = []; err_chan = [] }
