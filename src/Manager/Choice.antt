-- ===== src/Manager/Choice.antt =====
-- The board that the allocator chooses, and what `addPod` makes of it.
use orin_device_system.Common.{
  ℤ, ℤ_discrete, Option, none, some, true, false, Text_discrete, has_key, lookup, lookup-insert,
  ◌≡◌, ◌≢◌, inl, inr, sym, ◌∙◌, ap, subst, arith,
}
use orin_device_system.Common.Sets.{IntSets}
use orin_device_system.Topo.{BoardDetails, board}
use orin_device_system.Topo.Views.{has_orin}
use orin_device_system.Topo.Difference.{Covers}
use orin_device_system.Names.RoundTrip.{IsInt64}
use orin_device_system.Allocator.{
  done, Allocator, AllocatorResult, allocate, binpack_allocate, binpack_allocator, spread_allocator,
  board_id_not_fount,
}
use orin_device_system.Allocator.BestFit.{Fits, IsSane, binpack_allocate-best}
use orin_device_system.Pods.{Pod, add_pod_bind_annotation, build_request_orin_set}
use orin_device_system.Pods.Annotations.{bind_board-add}
use orin_device_system.NodeInfo.{NodeInfo, add_pod, request_on}
use orin_device_system.NodeInfo.Invariant.{
  IsConsistent, asks, requested_with, has_orin-requested_with,
}
use orin_device_system.NodeInfo.Release.{add_pod-reserve, reserve-Covers}
use orin_device_system.NodeInfo.UndoAdd.{IsNew}

module _ ⦃S : IntSets⦄ where
  -- The choice of an allocator that returns is a board that fits, unless it is -1.
  pub allocate-Fits :
      (a : Option Allocator) (d : BoardDetails) (request : S.IntSet) (res : AllocatorResult)
      → IsSane d
      → allocate a d request ≡ done res
      → res.board_id ≢ board_id_not_fount
      → Fits d request res.board_id
  unfolding allocate
  allocate-Fits none d request res sane e proper = cc
  allocate-Fits (some spread_allocator) d request res sane e proper = cc
  allocate-Fits (some binpack_allocator) d request res sane e proper =
      let same : binpack_allocate d request ≡ res = cc in
      elim (binpack_allocate-best d request sane) [
        | inl missing ↦
            absurd (proper (ap (λ (r : AllocatorResult). r.board_id) (sym same) ∙ missing.sentinel))
        | inr found ↦ subst (λ (r : AllocatorResult). Fits d request r.board_id) same found.fits
      ]

  module _ (ni : NodeInfo) (pod : Pod) (b : ℤ) (books : IsConsistent ni)
      (fits : Fits ni.allocatable (build_request_orin_set pod) b) where
    -- What fits the free orins is there, and nobody has requested it.
    asked_free :
        (j o : ℤ)
        → asks pod b j o ≡ true
        → (has_orin ni.total j o ≡ true) × (has_orin ni.requested j o ≡ false)
    asked_free j o e = ground (arith, fits.enough o, books.left j o, books.left b o)

    asked_Covers : Covers ni.total (requested_with ni.requested b pod)
    unfolding lookup
    asked_Covers = record {
      boards = λ j e. ground (
        arith,
        lookup-insert ℤ_discrete b j (request_on b pod (board ni.requested b)) ni.requested,
        books.covered.boards j,
        books.same_boards b,
        fits.there,
      );
      orins = λ j o e. ground (
        arith,
        has_orin-requested_with ni.requested b pod j o,
        asked_free j o,
        books.covered.orins j o,
      );
    }

  -- If an allocator chooses a board other than -1, with an int as its ID, for a pod from the free
  -- orins of a node with consistent books and a sane map of free orins that does not have the pod,
  -- then nobody has requested one of the pod's orins on this board, and `addPod` of the pod with
  -- the board annotated succeeds.
  pub allocate-IsNew :
      (ni : NodeInfo) (pod : Pod) (a : Option Allocator) (res : AllocatorResult)
      → IsConsistent ni
      → IsSane ni.allocatable
      → IsInt64 res.board_id
      → has_key Text_discrete pod.uid ni.pods ≡ false
      → allocate a ni.allocatable (build_request_orin_set pod) ≡ done res
      → res.board_id ≢ board_id_not_fount
      → IsNew ni (add_pod_bind_annotation pod res.board_id) res.board_id
        × ((add_pod ni (add_pod_bind_annotation pod res.board_id)).1 ≡ none)
  unfolding add_pod_bind_annotation build_request_orin_set
  allocate-IsNew ni pod a res books sane int64 unknown chosen proper =
      let b = res.board_id in
      let bound = add_pod_bind_annotation pod b in
      let fits : Fits ni.allocatable (build_request_orin_set bound) b =
        allocate-Fits a ni.allocatable (build_request_orin_set pod) res sane chosen proper in
      let annotated = (bind_board-add pod b int64).0 in
      (
        record {
          bound = annotated;
          unknown = unknown;
          unclaimed = λ j o e. (asked_free ni bound b books fits j o e).1;
        },
        rw (add_pod-reserve ni bound b annotated unknown)
            (elim (reserve-Covers ni bound b books.requested_distinct) [
              | inl (succeeded, _) ↦ succeeded
              | inr (_, _, _, _, uncovered) ↦
                  absurd (uncovered (asked_Covers ni bound b books fits))
            ]),
      )
