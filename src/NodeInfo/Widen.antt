-- ===== src/NodeInfo/Widen.antt =====
-- `deletePod` of pkg/scheduler/manager/cache.go on a board whose map Allocatable shares with Total.
use orin_device_system.Common.{
  ℤ, ℤ_discrete, none, ite, some, true, false, ◌||◌, Text_discrete, has_key, lookup, Result-cases,
  [], ◌≡◌, ◌≢◌, refl, arith, inl, inr, ap, ◌∙◌,
}
use mathlib.Core.Option
use orin_device_system.Common.Sets.{IntSets}
use orin_device_system.Topo.{board, add_board, difference_from_superset}
use orin_device_system.Topo.Views.{has_orin, has_key-insert, has_orin-add_board}
use orin_device_system.Topo.Difference.{Covers}
use orin_device_system.Pods.{Pod, build_request_orin_set}
use orin_device_system.Pods.Annotations.{bind_board}
use orin_device_system.NodeInfo.{NodeInfo, request_on, release, delete_pod, reserve, add_pod}
use orin_device_system.NodeInfo.Invariant.{
  IsConsistent, asks, asked_details, has_key-request_on, requested_with, has_orin-requested_with,
}
use orin_device_system.NodeInfo.Release.{
  reserve-Covers, add_pod-reserve, delete_pod-release, release-succeeds,
}

module _ ⦃S : IntSets⦄ where
  reserve-failed :
      (ni : NodeInfo) (pod : Pod) (b : ℤ)
      → (reserve ni pod b).1 ≢ none
      → (reserve ni pod b).0 ≡ record ni { requested = requested_with ni.requested b pod }
  unfolding reserve
  reserve-failed ni pod b failed =
      elim (Result-cases (difference_from_superset ni.total (requested_with ni.requested b pod))) [
        | inl (d, h) ↦ absurd (failed (rw (h, reserve) refl))
        | inr (e, h) ↦ rw (h, reserve) refl
      ]

  not_fitting :
      (ni : NodeInfo) (pod : Pod) (b : ℤ)
      → IsConsistent ni
      → (reserve ni pod b).1 ≢ none
      → ¬ Covers ni.total (requested_with ni.requested b pod)
  not_fitting ni pod b books failed = elim (reserve-Covers ni pod b books.requested_distinct) [
    | inl (succeeded, c) ↦ absurd (failed succeeded)
    | inr (_, _, _, _, uncovered) ↦ uncovered
  ]

  release-total :
      (ni : NodeInfo) (pod : Pod) (b : ℤ)
      → ni.shares_total b ≡ true
      → (release ni pod b).1 ≡ none
      → (release ni pod b).0.total ≡ add_board b (request_on b pod []) ni.total
  unfolding release
  release-total ni pod b shared done =
      elim (Result-cases (difference_from_superset ni.requested (asked_details b pod))) [
        | inl (d, h) ↦ rw (h, release) (rw shared refl)
        | inr (e, h) ↦ absurd (Option.some-ne-none _ (rw (h, release) at done))
      ]

  asks-same :
      (pod pod' : Pod) (b j o : ℤ)
      → build_request_orin_set pod ≡ build_request_orin_set pod'
      → asks pod b j o ≡ asks pod' b j o
  asks-same pod pod' b j o e = ap (λ s. ite (ℤ_discrete j b) (S.has o s) false) e

  widened-has_orin :
      (ni : NodeInfo) (pod : Pod) (b j o : ℤ)
      → has_orin (add_board b (request_on b pod []) ni.total) j o
        ≡ (asks pod b j o || has_orin ni.total j o)
  unfolding lookup
  widened-has_orin ni pod b j o = ground (
    arith,
    has_orin-add_board b j o (request_on b pod []) ni.total,
    has_key-request_on b pod [] o,
  )

  -- If Total already had what the pod asks for, its orins would fit.
  widened-fits :
      (ni : NodeInfo) (pod : Pod) (b : ℤ)
      → IsConsistent ni
      → has_key ℤ_discrete b ni.total ≡ true
      → ((j o : ℤ) → asks pod b j o ≡ true → has_orin ni.total j o ≡ true)
      → Covers ni.total (requested_with ni.requested b pod)
  widened-fits ni pod b books there has = record {
    boards = λ j e. ground (
      arith,
      books.covered.boards j,
      has_key-insert b j (request_on b pod (board ni.requested b)) ni.requested,
    );
    orins = λ j o e.
        ground
          (arith, has j o, books.covered.orins j o, has_orin-requested_with ni.requested b pod j o);
  }

  -- A node with consistent books has a board whose map Allocatable shares with Total. After `addPod`
  -- of a new pod on this board has failed, `deletePod` of a recorded pod that requests the same
  -- orins, and whose annotation names this board, returns no error, and puts exactly these orins on
  -- the board into Total: it then has more than it had.
  pub delete_pod-widens :
      (ni : NodeInfo) (bad pod : Pod) (b : ℤ)
      → IsConsistent ni
      → has_key ℤ_discrete b ni.total ≡ true
      → ni.shares_total b ≡ true
      → bind_board bad ≡ some b
      → has_key Text_discrete bad.uid ni.pods ≡ false
      → (add_pod ni bad).1 ≢ none
      → bind_board pod ≡ some b
      → has_key Text_discrete pod.uid ni.pods ≡ true
      → build_request_orin_set pod ≡ build_request_orin_set bad
      → let after = delete_pod (add_pod ni bad).0 pod in
        (after.1 ≡ none)
        × ((j o : ℤ) → has_orin after.0.total j o ≡ (asks pod b j o || has_orin ni.total j o))
        × ¬ Covers ni.total after.0.total
  delete_pod-widens ni bad pod b books there shared bad_bound new failed bound known same =
      let failing = rw (add_pod-reserve ni bad b bad_bound new) at failed in
      let ni' = record ni { requested = requested_with ni.requested b bad } in
      let left : (add_pod ni bad).0 ≡ ni' =
        ap (λ r. r.0) (add_pod-reserve ni bad b bad_bound new) ∙ reserve-failed ni bad b failing in
      let done : (release ni' pod b).1 ≡ none =
        release-succeeds ni' pod b
          (ground
            (arith, has_key-insert b b (request_on b bad (board ni.requested b)) ni.requested))
          (λ j o e. ground (
            arith,
            e,
            asks-same pod bad b j o same,
            has_orin-requested_with ni.requested b bad j o,
          )) in
      let total = release-total ni' pod b shared done in
      let orins : (j o : ℤ)
          → has_orin (release ni' pod b).0.total j o ≡ (asks pod b j o || has_orin ni.total j o) =
        λ j o. ap (λ t. has_orin t j o) total ∙ widened-has_orin ni pod b j o in
      let nothing_new : ¬ ((j o : ℤ) → asks pod b j o ≡ true → has_orin ni.total j o ≡ true) =
        λ has. not_fitting ni bad b books failing (
          widened-fits ni bad b books there
            (λ j o e. has j o (asks-same pod bad b j o same ∙ e))) in
      rw left (
        rw (delete_pod-release ni' pod b bound known) (
          done,
          orins,
          λ wider. nothing_new (λ j o e. wider.orins j o (ground (arith, orins j o, e))),
        ))
