-- ===== src/Manager/Race.antt =====
-- Two calls of `Bind` of pkg/scheduler/manager/manager.go at once, up to `AssumePod`: the choice of a
-- board reads the books of the node without the lock of the cache, and `AssumePod` is another step.
-- Both pods are fetched already, and the node stays the same.
pub mod Sharing
pub mod Turns
use orin_device_system.Common.{
  ℤ_discrete, List, [], ◌∷◌, Option, none, some, Bool, true, false, Text, ite,
}
use orin_device_system.Common.Sets.{IntSets, StringSets}
use orin_device_system.Allocator.{
  Outcome, done, panic, AllocatorResult, allocate, board_id_not_fount,
}
use orin_device_system.Pods.{Pod, add_pod_bind_annotation, build_request_orin_set}
use orin_device_system.Cache.{ScheduleCache, CacheError, get_node, assume_pod}
use orin_device_system.Manager.{pod_allocator}

-- Where an attempt of `bindPod` is: before its choice, with the annotated copy at hand, or past
-- `AssumePod`; it fails without a node or a board, or as `AssumePod` fails.
pub data BindPhase : Type 0 where
  choosing : BindPhase
  chosen assumed : (new_pod : Pod) → BindPhase
  no_node_left no_board_left : BindPhase
  refused : (new_pod : Pod) → CacheError → BindPhase

pub record BindCall : Type 0 where
  pub node : Text
  pub pod : Pod
  pub phase : BindPhase

module _ ⦃S : IntSets⦄ ⦃T : StringSets⦄ where
  -- what `bindPod` does with the allocator's result
  unfoldable pub chosen_phase : Pod → Outcome AllocatorResult → Outcome BindPhase
  chosen_phase pod panic = panic
  chosen_phase pod (done res) = done (
      ite (ℤ_discrete res.board_id board_id_not_fount) no_board_left
        (chosen (add_pod_bind_annotation pod res.board_id)))

  unfoldable pub choose_phase : ScheduleCache → Text → Pod → Outcome BindPhase
  choose_phase c node pod = elim (get_node c node) [
    | none ↦ done no_node_left
    | some ni ↦
        chosen_phase pod (allocate (pod_allocator pod) ni.allocatable (build_request_orin_set pod))
  ]

  unfoldable pub at_phase :
      ScheduleCache → BindCall → Outcome BindPhase → Outcome (ScheduleCache × BindCall)
  at_phase c k panic = panic
  at_phase c k (done phase) = done (c, record k { phase = phase })

  unfoldable pub assumed_phase : Pod → Option CacheError → BindPhase
  assumed_phase new_pod none = assumed new_pod
  assumed_phase new_pod (some e) = refused new_pod e

  -- One turn of a call.
  unfoldable pub bind_turn :
      BindPhase → ScheduleCache → BindCall → Outcome (ScheduleCache × BindCall)
  bind_turn choosing c k = at_phase c k (choose_phase c k.node k.pod)
  bind_turn (chosen new_pod) c k =
      let (c', e) = assume_pod c new_pod k.node in
      done (c', record k { phase = assumed_phase new_pod e })
  bind_turn (assumed new_pod) c k = done (c, k)
  bind_turn no_node_left c k = done (c, k)
  bind_turn no_board_left c k = done (c, k)
  bind_turn (refused new_pod e) c k = done (c, k)

  -- The turns of two calls: `true` is a turn of the first.
  unfoldable pub interleave :
      List Bool
      → ScheduleCache
      → BindCall
      → BindCall
      → Outcome (ScheduleCache × BindCall × BindCall)
  interleave [] c k l = done (c, k, l)
  interleave (true ∷ turns) c k l = elim (bind_turn k.phase c k) [
    | panic ↦ panic
    | done r ↦ interleave turns r.0 r.1 l
  ]
  interleave (false ∷ turns) c k l = elim (bind_turn l.phase c l) [
    | panic ↦ panic
    | done r ↦ interleave turns r.0 k r.1
  ]
