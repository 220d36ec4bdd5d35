-- ===== src/Examples/Program.antt =====
-- The scheduler as a whole at concrete inputs.
use orin_device_system.Common.{
  ℤ, pos, sym, subst, List, [], ◌∷◌, none, true, false, Text, codes, All, ◌≡◌, ◌↔◌, arith,
}
use orin_device_system.Common.ListSets.{list_sets}
use orin_device_system.Common.TextSets.{text_sets}
use orin_device_system.Topo.Views.{has_orin}
use orin_device_system.Allocator.{done}
use orin_device_system.Manager.Bind.{BindError}
use orin_device_system.NodeInfo.{new_node_info, add_pods}
use orin_device_system.Pods.{add_pod_bind_annotation}
use orin_device_system.NodeInfo.Intact.{add_pod-SameTotal}
use orin_device_system.Examples.Caches.{bare_rack-IsConsistent}
use orin_device_system.NodeInfo.Bounds.{IsBounded, FitsInt64}
use orin_device_system.Cache.WellFormed.{IsWellFormed}
use orin_device_system.Manager.Bounds.{NodeReachable-IsBounded}
use orin_device_system.Manager.Sharing.{node_started}
use orin_device_system.Manager.Ledger.{holds, ledger, LedgerReachable, IsExclusive}
use orin_device_system.Manager.Ledger.Simulation.{NodeReachable-LedgerReachable}
use orin_device_system.Controller.{Informers, node_object, pod_object}
use orin_device_system.Controller.Worker.{done_keys}
use orin_device_system.Controller.Rounds.{wait_until, wait_until-done}
use orin_device_system.Program.{
  ProgramEvent, ProgramState, node_added, pod_added, program_start, run_program,
}
use orin_device_system.Program.Binds.{Ends}
use orin_device_system.Program.Safety.{IsCalm, run_program-IsWellFormed}
use orin_device_system.Examples.Data.{rack_node, small_pod, bound_pod}
use orin_device_system.Examples.Binding.{server, retry}
use orin_device_system.Examples.Control.{informers, held_cache}
use orin_device_system.Examples.Placing.{placed_info, placed-NodeReachable}

rack_fits : FitsInt64 (new_node_info rack_node []).node
unfolding new_node_info add_pods
rack_fits = (omega arith, (omega arith, (omega arith, tt)))

pub rack-IsBounded : IsBounded (new_node_info rack_node []).total
rack-IsBounded = (NodeReachable-IsBounded node_started rack_fits).0

placed_fits : FitsInt64 placed_info.node
placed_fits =
    subst FitsInt64
      (sym
        (add_pod-SameTotal (new_node_info rack_node []) (add_pod_bind_annotation small_pod (pos 1))
          bare_rack-IsConsistent).same_node)
      rack_fits

NodeReachable-IsBounded_example :
    IsBounded placed_info.total
    × IsBounded placed_info.requested
    × IsBounded placed_info.allocatable
NodeReachable-IsBounded_example = NodeReachable-IsBounded placed-NodeReachable placed_fits

NodeReachable-LedgerReachable_example :
    LedgerReachable (ledger (new_node_info rack_node [])) (ledger placed_info)
    × IsExclusive (ledger placed_info)
    × ((j o : ℤ)
        → (has_orin placed_info.allocatable j o ≡ true) ↔ (
            (has_orin placed_info.total j o ≡ true)
            × ((u : Text) → holds (ledger placed_info) u j o ≡ false)))
NodeReachable-LedgerReachable_example = NodeReachable-LedgerReachable placed-NodeReachable

abbrev no_message : BindError (Unit {0}) → Text
no_message e = codes "error"

abbrev events : List (Informers × ProgramEvent)
events =
    (informers, node_added (node_object rack_node))
    ∷ (informers, pod_added (pod_object bound_pod))
    ∷ []

run_program-IsWellFormed_example :
    Ends
      (run_program
        (server none)
        no_message
        retry
        events
        (program_start (server none) no_message retry small_pod))
      (λ s. IsWellFormed s.cache)
    × (All (IsCalm (server none) no_message retry) events
        → (s : ProgramState (server none) no_message retry) × (run_program
              (server none)
              no_message
              retry
              events
              (program_start (server none) no_message retry small_pod)
            ≡ done s))
run_program-IsWellFormed_example =
    run_program-IsWellFormed (server none) no_message retry small_pod events

wait_until-done_example :
    let r = wait_until informers 2 held_cache (codes "d/p" ∷ codes "d/q" ∷ []) in
    (r.1 ≡ []) × (done_keys r.2 ≡ codes "d/p" ∷ codes "d/q" ∷ [])
wait_until-done_example =
    wait_until-done informers 2 held_cache (codes "d/p" ∷ codes "d/q" ∷ []) (omega arith)
