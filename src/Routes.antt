-- ===== src/Routes.antt =====
-- pkg/scheduler/routes: the handlers that the scheduler extender serves, on decoded arguments. A nil
-- `NodeNames` is dereferenced, and panics.
pub mod Hosts
pub mod Http
pub mod Serve
pub mod Served
use orin_device_system.Common.{ℤ, List, [], ◌∷◌, Option, none, some, Text, codes}
use orin_device_system.Common.Sets.{IntSets, StringSets}
use orin_device_system.Allocator.{Outcome, done, panic}
use orin_device_system.Pods.{Pod, TextMap}
use orin_device_system.Cache.{ScheduleCache}
use orin_device_system.Manager.{Filtered, predicate, priority}
use orin_device_system.Manager.Bind.{Api, BindError, BindState, Retry, bind}

pub record ExtenderArgs : Type 0 where
  pub pod : Pod
  pub node_names : Option (List Text)

pub record ExtenderFilterResult : Type 0 where
  pub node_names : Option (List Text)
  pub failed_nodes : TextMap Text
  pub error : Text

pub record HostPriority : Type 0 where
  pub host : Text
  pub score : ℤ

pub record ExtenderBindingArgs : Type 0 where
  pub pod_name : Text
  pub pod_namespace : Text
  pub pod_uid : Text
  pub node : Text

-- for i, score := range scores { priorityList[i] = ... }, over as many nodes as scores
unfoldable pub host_priorities : List Text → List ℤ → List HostPriority
host_priorities (node ∷ nodes) (score ∷ scores) =
    record { host = node; score = score } ∷ host_priorities nodes scores
host_priorities [] scores = []
host_priorities (node ∷ nodes) [] = []

module _ ⦃S : IntSets⦄ ⦃T : StringSets⦄ where
  unfoldable pub filter_result : Outcome Filtered → Outcome ExtenderFilterResult
  filter_result panic = panic
  filter_result (done f) =
      done (record { node_names = some f.nodes; failed_nodes = f.failed; error = [] })

  -- Predicate.Handler; `Manager.Predicate` never returns an error.
  unfoldable pub predicate_handler :
      ScheduleCache → List Text → ExtenderArgs → Outcome ExtenderFilterResult
  predicate_handler c order args = elim args.node_names [
    | none ↦ panic
    | some nodes ↦ filter_result (predicate c nodes order args.pod)
  ]

  unfoldable pub priority_list : List Text → Outcome (List ℤ) → Outcome (List HostPriority)
  priority_list nodes panic = panic
  priority_list nodes (done scores) = done (host_priorities nodes scores)

  -- Prioritize.Handler
  unfoldable pub prioritize_handler : ScheduleCache → ExtenderArgs → Outcome (List HostPriority)
  prioritize_handler c args = elim args.node_names [
    | none ↦ panic
    | some nodes ↦ priority_list nodes (priority c nodes args.pod)
  ]

  module _ (api : Api) (message : BindError api.ApiError → Text) where
    -- The message of an error, or the empty one.
    unfoldable pub binding_result :
        Outcome (BindState api × Option (BindError api.ApiError)) → Outcome (BindState api × Text)
    binding_result panic = panic
    binding_result (done (s, none)) = done (s, [])
    binding_result (done (s, some e)) = done (s, message e)

    -- Bind.Handler
    unfoldable pub bind_handler :
        Retry → api.World → ScheduleCache → ExtenderBindingArgs → Outcome (BindState api × Text)
    bind_handler retry w c args =
        binding_result (bind api retry w c args.node args.pod_name args.pod_namespace args.pod_uid)
