-- ===== src/Manager.antt =====
-- pkg/scheduler/manager/manager.go: `Predicate` and `Priority`, and `Normalize` of util.go. The
-- workers of `Parallelize` take the pieces in an order that Go leaves open: it is an argument.
pub mod Bind
pub mod Parallel
pub mod Race
pub mod Rounds
pub mod Filter
pub mod Scores
pub mod Choice
pub mod Sharing
pub mod Bounds
pub mod Ledger
pub mod Priorities
use orin_device_system.Common.{
  ℕ, ◌-◌, ◌+◌, ◌*◌, zero, suc, ℤ, ℤ_discrete, pos, negsuc, pos_part, quot_ℕ, mul_ℕ, wrap64, ltb,
  ◌==◌, List, [], ◌∷◌, ◌++◌, map, Option, none, some, Bool, true, false, Text, Text_discrete, codes,
  insert, lookup, ite, if◌then◌else◌, length, replicate,
}
use mathlib.Core.Option
use orin_device_system.Common.Sets.{IntSets, StringSets}
use orin_device_system.Names.{annotation_pod_bind_orin_policy}
use orin_device_system.Allocator.{
  Allocator, AllocatorResult, Outcome, done, panic, allocator_map, allocate,
  allocator_policy_bin_pack, board_id_not_fount,
}
use orin_device_system.Pods.{Pod, TextMap, build_request_orin_set}
use orin_device_system.NodeInfo.{NodeInfo}
use orin_device_system.Cache.{ScheduleCache, get_node}

-- The allocator that the pod's annotation names, binpack if it names none.
unfoldable pub pod_allocator : Pod → Option Allocator
pod_allocator pod = allocator_map (
    Option.get_or (lookup Text_discrete annotation_pod_bind_orin_policy pod.annotations)
      allocator_policy_bin_pack)

-- What the workers of `Predicate` share: the nodes in the slots filled so far, and the failures.
pub record Filtered : Type 0 where
  pub nodes : List Text
  pub failed : TextMap Text

-- a > b, on Go's ints
abbrev pub gtb : ℤ → ℕ → Bool
gtb a b = ltb b (pos_part a)

-- the loop of `Normalize` that finds the largest score above zero
unfoldable pub max_count : List ℤ → ℕ → ℕ
max_count [] m = m
max_count (s ∷ scores) m = max_count scores (if gtb s m then pos_part s else m)

unfoldable pub scale : ℕ → ℕ → ℤ → ℤ
scale max_priority m score = quot_ℕ (wrap64 (mul_ℕ max_priority score)) m

-- `Normalize`, for a `maxPriority` that is not negative
unfoldable pub normalize : ℕ → List ℤ → List ℤ
normalize max_priority scores =
    let m = max_count scores 0 in if m == 0 then scores else map (scale max_priority m) scores

module _ ⦃S : IntSets⦄ ⦃T : StringSets⦄ where
  -- the result of `Allocate`, in `checkNodes`
  unfoldable pub file_node : Text → AllocatorResult → Filtered → Filtered
  file_node name res f =
      ite (ℤ_discrete res.board_id board_id_not_fount)
        (record f {
          failed = insert Text_discrete name (name ++ codes " has not enough resource") f.failed;
        })
        (record f { nodes = f.nodes ++ name ∷ [] })

  -- `checkNodes` of `Predicate`, for one node
  unfoldable pub check_node :
      ScheduleCache → Option Allocator → S.IntSet → Text → Filtered → Outcome Filtered
  check_node c allocator orin_request name f = elim (get_node c name) [
    | none ↦ done (record f {
      failed = insert Text_discrete name (name ++ codes " not found in node cache") f.failed;
    })
    | some ni ↦ (elim (allocate allocator ni.allocatable orin_request) [
      | panic ↦ panic
      | done res ↦ done (file_node name res f)
    ])
  ]

  unfoldable pub check_nodes :
      ScheduleCache → Option Allocator → S.IntSet → List Text → Filtered → Outcome Filtered
  check_nodes c allocator orin_request [] f = done f
  check_nodes c allocator orin_request (name ∷ names) f =
      elim (check_node c allocator orin_request name f) [
        | panic ↦ panic
        | done f' ↦ check_nodes c allocator orin_request names f'
      ]

  -- `Predicate`. `order` is the order in which the workers reach the nodes; the slots that none of
  -- them fills hold the empty string.
  unfoldable pub predicate : ScheduleCache → List Text → List Text → Pod → Outcome Filtered
  predicate c nodes order pod =
      elim (check_nodes c (pod_allocator pod) (build_request_orin_set pod) order
        (record { nodes = []; failed = [] })) [
          | panic ↦ panic
          | done f ↦
              done (record f { nodes = f.nodes ++ replicate (length nodes - length f.nodes) [] })
        ]

  -- `checkNodes` of `Priority`: the score that goes into the node's slot
  unfoldable pub score_node : ScheduleCache → Option Allocator → S.IntSet → Text → Outcome ℤ
  score_node c allocator orin_request name = elim (get_node c name) [
    | none ↦ done (pos 0)
    | some ni ↦ (elim (allocate allocator ni.allocatable orin_request) [
      | panic ↦ panic
      | done res ↦ done (ite (ℤ_discrete res.board_id board_id_not_fount) (pos 0) res.score)
    ])
  ]

  unfoldable pub score_nodes :
      ScheduleCache → Option Allocator → S.IntSet → List Text → Outcome (List ℤ)
  score_nodes c allocator orin_request [] = done []
  score_nodes c allocator orin_request (name ∷ names) =
      elim (score_node c allocator orin_request name) [
        | panic ↦ panic
        | done s ↦ (elim (score_nodes c allocator orin_request names) [
          | panic ↦ panic
          | done ss ↦ done (s ∷ ss)
        ])
      ]

  -- `Priority`: each worker writes the slot of its own node, so their order does not matter.
  unfoldable pub priority : ScheduleCache → List Text → Pod → Outcome (List ℤ)
  priority c nodes pod =
      elim (score_nodes c (pod_allocator pod) (build_request_orin_set pod) nodes) [
        | panic ↦ panic
        | done scores ↦ done (normalize 10 scores)
      ]
