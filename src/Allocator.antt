-- ===== src/Allocator.antt =====
-- pkg/scheduler/manager/allocator.go: the choice of a board on a node.
pub mod BestFit
use orin_device_system.Common.{
  ℕ, ◌+◌, ◌-◌, ◌^◌, ℤ, ℤ_discrete, pos, negsuc, ◌-ℤ◌, List, [], ◌∷◌, Option, none, some, Bool, true,
  false, ◌&&◌, Text, Text_discrete, codes, lookup, ltb, ite, if◌then◌else◌, length,
}
use orin_device_system.Common.Sets.{IntSets}
use orin_device_system.Topo.{OrinDetails, BoardDetails, orin_set}

abbrev pub allocator_policy_bin_pack : Text
allocator_policy_bin_pack = codes "binpack"

abbrev pub allocator_policy_spread : Text
allocator_policy_spread = codes "spread"

abbrev pub board_id_not_fount : ℤ
board_id_not_fount = negsuc 0

-- math.MaxInt on 64 bits
abbrev pub max_int : ℕ
max_int = 2 ^ 63 - 1

-- The types that implement the interface `Allocator`.
pub data Allocator : Type 0 where
  binpack_allocator spread_allocator : Allocator

-- `AllocatorMap[policy]`; `none` is the nil interface that a missing key gives.
unfoldable pub allocator_map : Text → Option Allocator
allocator_map policy =
    lookup Text_discrete policy ((allocator_policy_bin_pack, binpack_allocator) ∷ [])

pub record AllocatorResult : Type 0 where
  pub score : ℤ
  pub board_id : ℤ

-- A call that returns, or that panics.
pub data Outcome {ℓ} (A : Type ℓ) : Type ℓ where
  done : A → Outcome A
  panic : Outcome A

-- the second loop of `BinpackAllocator.Allocate`
unfoldable pub node_score : BoardDetails → ℤ → ℤ
node_score [] score = score
node_score ((_, orin_info) ∷ can_alloc) score =
    node_score can_alloc (score -ℤ pos (length orin_info))

module _ ⦃S : IntSets⦄ where
  -- the first loop: the board with the fewest free orins among those that have the requested ones
  unfoldable pub best_fit : BoardDetails → S.IntSet → ℤ → ℕ → ℤ
  best_fit [] orin_request best_id best_score = best_id
  best_fit ((board_id, orin_info) ∷ can_alloc) orin_request best_id best_score =
      let avail = orin_set orin_info in
      let better = S.is_superset avail orin_request && ltb (S.len avail) best_score in
      best_fit can_alloc orin_request (if better then board_id else best_id)
        (if better then S.len avail else best_score)

  -- BinpackAllocator.Allocate
  unfoldable pub binpack_allocate : BoardDetails → S.IntSet → AllocatorResult
  binpack_allocate can_alloc orin_request =
      let board_id = best_fit can_alloc orin_request board_id_not_fount max_int in
      record {
        score =
            ite (ℤ_discrete board_id board_id_not_fount) (pos 0) (node_score can_alloc (pos 100));
        board_id = board_id;
      }

  -- `allocator.Allocate(...)`: the spread allocator panics, and so does a call through nil.
  unfoldable pub allocate : Option Allocator → BoardDetails → S.IntSet → Outcome AllocatorResult
  allocate none can_alloc orin_request = panic
  allocate (some binpack_allocator) can_alloc orin_request =
      done (binpack_allocate can_alloc orin_request)
  allocate (some spread_allocator) can_alloc orin_request = panic
