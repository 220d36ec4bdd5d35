-- ===== src/NodeInfo/Release.antt =====
-- Adding a pod, taking it off again, and what a failed addition leaves behind.
use orin_device_system.Common.{
  ℤ, ℤ_discrete, none, some, true, false, ◌&&◌, ◌||◌, not, Text, Text_discrete, has_key, lookup,
  lookup-insert, lookup-delete, Distinct, insert-Distinct, Result-cases, is_ok, ◌≡◌, ◌≢◌, refl,
  arith, ite, inl, inr, ap, ◌⊎◌, sym, ◌∙◌,
}
use mathlib.Core.Option
use mathlib.Core.Bool.{false≢true}
use orin_device_system.Common.Sets.{IntSets}
use orin_device_system.Topo.{BoardDetails, difference_from_superset, board}
use orin_device_system.Topo.Views.{has_orin, has_key-insert}
use orin_device_system.Topo.Difference.{Covers, difference-has_orin, difference-Covers_iff}
use orin_device_system.Pods.{Pod}
use orin_device_system.Pods.Annotations.{bind_board}
use orin_device_system.NodeInfo.{
  NodeInfo, details_error, request_on, release, delete_pod, reserve, add_pod,
}
use orin_device_system.NodeInfo.Invariant.{
  IsConsistent, asks, asked_details, asked_details-Distinct, has_orin-asked_details,
  has_key-asked_details, requested_with, has_orin-requested_with,
}

module _ ⦃S : IntSets⦄ where
  -- With its board known, a pod that is not there yet is added by `reserve` ...
  pub add_pod-reserve :
      (ni : NodeInfo) (pod : Pod) (b : ℤ)
      → bind_board pod ≡ some b
      → has_key Text_discrete pod.uid ni.pods ≡ false
      → add_pod ni pod ≡ reserve ni pod b
  unfolding add_pod bind_board
  add_pod-reserve ni pod b e h = ground arith

  -- ... and one that is there is deleted by `release`.
  pub delete_pod-release :
      (ni : NodeInfo) (pod : Pod) (b : ℤ)
      → bind_board pod ≡ some b
      → has_key Text_discrete pod.uid ni.pods ≡ true
      → delete_pod ni pod ≡ release ni pod b
  unfolding delete_pod bind_board
  delete_pod-release ni pod b e h = ground arith

  Covers-requested_with :
      (total requested : BoardDetails) (b : ℤ) (pod : Pod)
      → Covers total (requested_with requested b pod)
      → Covers total requested
  Covers-requested_with total requested b pod c = record {
    boards = λ j e.
        ground
          (arith, c.boards j, has_key-insert b j (request_on b pod (board requested b)) requested);
    orins = λ j o e. ground (arith, c.orins j o, has_orin-requested_with requested b pod j o);
  }

  pub reserve-Covers :
      (ni : NodeInfo) (pod : Pod) (b : ℤ)
      → Distinct ℤ_discrete ni.requested
      → (((reserve ni pod b).1 ≡ none) × Covers ni.total (requested_with ni.requested b pod))
        ⊎ (((reserve ni pod b).1 ≢ none)
            × ((reserve ni pod b).0.total ≡ ni.total)
            × ((reserve ni pod b).0.requested ≡ requested_with ni.requested b pod)
            × ((reserve ni pod b).0.pods ≡ ni.pods)
            × ¬ Covers ni.total (requested_with ni.requested b pod))
  unfolding reserve
  reserve-Covers ni pod b n =
      let requested = requested_with ni.requested b pod in
      let distinct =
        insert-Distinct ℤ_discrete b (request_on b pod (board ni.requested b)) ni.requested n in
      elim (Result-cases (difference_from_superset ni.total requested)) [
        | inl (d, h) ↦ inl (
          rw (h, reserve) refl,
          (difference-Covers_iff ni.total requested distinct).0 (ap is_ok h),
        )
        | inr (e, h) ↦ inr (
          rw (h, reserve) (Option.some-ne-none (details_error e)),
          rw (h, reserve) refl,
          rw (h, reserve) refl,
          rw (h, reserve) refl,
          λ c. ground (arith, h, (difference-Covers_iff ni.total requested distinct).1 c),
        )
      ]

  add_pod-not-covered :
      (ni : NodeInfo) (total requested : BoardDetails) (pod : Pod) (b : ℤ)
      → ni.total ≡ total
      → ni.requested ≡ requested
      → Distinct ℤ_discrete requested
      → ¬ Covers total requested
      → bind_board pod ≡ some b
      → has_key Text_discrete pod.uid ni.pods ≡ false
      → (add_pod ni pod).1 ≢ none
  add_pod-not-covered ni total requested pod b et er n uncovered e h =
      rw (add_pod-reserve ni pod b e h) (elim (reserve-Covers ni pod b (rw er n)) [
        | inl (_, c) ↦
            absurd (
              uncovered (rw et at (rw er at (Covers-requested_with ni.total ni.requested b pod c))))
        | inr (failed, _, _, _, _) ↦ failed
      ])

  -- On a node whose requests have distinct keys, after `addPod` has failed for a pod that is new
  -- to the node, it fails for every pod that is bound to a board and new to the node.
  pub add_pod-after_failure :
      (ni : NodeInfo) (bad pod : Pod) (b c : ℤ)
      → Distinct ℤ_discrete ni.requested
      → bind_board bad ≡ some b
      → has_key Text_discrete bad.uid ni.pods ≡ false
      → (add_pod ni bad).1 ≢ none
      → bind_board pod ≡ some c
      → has_key Text_discrete pod.uid ni.pods ≡ false
      → (add_pod (add_pod ni bad).0 pod).1 ≢ none
  add_pod-after_failure ni bad pod b c n eb hb failed ec hc =
      let distinct =
        insert-Distinct ℤ_discrete b (request_on b bad (board ni.requested b)) ni.requested n in
      rw (add_pod-reserve ni bad b eb hb) (elim (reserve-Covers ni bad b n) [
        | inl (succeeded, _) ↦ absurd (failed (rw (add_pod-reserve ni bad b eb hb) succeeded))
        | inr (_, et, er, ep, uncovered) ↦
            add_pod-not-covered (reserve ni bad b).0 ni.total (requested_with ni.requested b bad)
              pod c et er distinct uncovered ec (rw ep hc)
      ])

  -- A node that gained `pod` on board `b` asks for what it asked before and for the pod's orins.
  pub record Reserved (ni ni' : NodeInfo) (pod : Pod) (b : ℤ) : Type 0 where
    pub same_total : ni'.total ≡ ni.total
    pub recorded :
        (u : Text)
        → lookup Text_discrete u ni'.pods
          ≡ ite (Text_discrete u pod.uid) (some pod) (lookup Text_discrete u ni.pods)
    pub board_there : has_key ℤ_discrete b ni'.requested ≡ true
    pub apart : ni'.shares_total b ≡ false
    pub taken :
        (j o : ℤ) → has_orin ni'.requested j o ≡ (asks pod b j o || has_orin ni.requested j o)

  -- A node that lost `pod` on board `b` no longer asks for the pod's orins.
  pub record Released (ni ni' : NodeInfo) (pod : Pod) (b : ℤ) : Type 0 where
    pub same_total : ni'.total ≡ ni.total
    pub forgotten :
        (u : Text)
        → lookup Text_discrete u ni'.pods
          ≡ ite (Text_discrete u pod.uid) none (lookup Text_discrete u ni.pods)
    pub freed :
        (j o : ℤ) → has_orin ni'.requested j o ≡ (has_orin ni.requested j o && not (asks pod b j o))

  reserve-Reserved :
      (ni : NodeInfo) (pod : Pod) (b : ℤ)
      → (reserve ni pod b).1 ≡ none
      → Reserved ni (reserve ni pod b).0 pod b
  unfolding reserve
  reserve-Reserved ni pod b ok_end =
      elim (Result-cases (difference_from_superset ni.total (requested_with ni.requested b pod))) [
        | inr (e, h) ↦ absurd (Option.some-ne-none _ (rw (h, reserve) at ok_end))
        | inl (d, h) ↦
            rw (h, reserve)
              (record {
                same_total = refl;
                recorded = λ u. lookup-insert Text_discrete pod.uid u pod ni.pods;
                board_there = ground (
                  arith,
                  has_key-insert b b (request_on b pod (board ni.requested b)) ni.requested,
                );
                apart = ground (
                  arith,
                  has_key-insert b b (request_on b pod (board ni.requested b)) ni.requested,
                );
                taken = has_orin-requested_with ni.requested b pod;
              })
      ]

  -- After a successful `addPod` of a pod that is bound to a board and new to the node, the node
  -- has the total that it had, the pod is recorded, and the requests are those before with exactly
  -- the pod's orins on the board added.
  pub add_pod-Reserved :
      (ni : NodeInfo) (pod : Pod) (b : ℤ)
      → bind_board pod ≡ some b
      → has_key Text_discrete pod.uid ni.pods ≡ false
      → (add_pod ni pod).1 ≡ none
      → Reserved ni (add_pod ni pod).0 pod b
  add_pod-Reserved ni pod b e h ok_end =
      let step = add_pod-reserve ni pod b e h in
      rw step (reserve-Reserved ni pod b (rw step at ok_end))

  -- What can be released is on a board with requests.
  pub release_there :
      (ni : NodeInfo) (pod : Pod) (b : ℤ)
      → (release ni pod b).1 ≡ none
      → has_key ℤ_discrete b ni.requested ≡ true
  unfolding release
  release_there ni pod b ok_end =
      let asked = asked_details b pod in
      elim (Result-cases (difference_from_superset ni.requested asked)) [
        | inr (e, h) ↦ absurd (Option.some-ne-none _ (rw (h, release) at ok_end))
        | inl (d, h) ↦
            ((difference-Covers_iff ni.requested asked (asked_details-Distinct b pod)).0
                (ap is_ok h)).boards
              b (ground (arith, has_key-asked_details b pod b))
      ]

  release-Released :
      (ni : NodeInfo) (pod : Pod) (b : ℤ)
      → ni.shares_total b ≡ false
      → (release ni pod b).1 ≡ none
      → Released ni (release ni pod b).0 pod b
  unfolding release
  release-Released ni pod b apart ok_end =
      let asked = asked_details b pod in
      elim (Result-cases (difference_from_superset ni.requested asked)) [
        | inr (e, h) ↦ absurd (Option.some-ne-none _ (rw (h, release) at ok_end))
        | inl (d, h) ↦
            let (boards, orins) =
              difference-has_orin ni.requested asked {d = d} (asked_details-Distinct b pod) h in
            rw (h, release)
              (record {
                same_total = rw apart refl;
                forgotten = λ u. lookup-delete Text_discrete pod.uid u ni.pods;
                freed = λ j o. ground (arith, orins j o, has_orin-asked_details b pod j o);
              })
      ]

  -- After a successful `deletePod` of a pod that is bound to a board and is one of the node's, where
  -- Allocatable does not share the map of this board with Total, the node has the total that it had,
  -- the pod is gone, and the requests are those before without exactly the pod's orins on the board.
  pub delete_pod-Released :
      (ni : NodeInfo) (pod : Pod) (b : ℤ)
      → bind_board pod ≡ some b
      → has_key Text_discrete pod.uid ni.pods ≡ true
      → ni.shares_total b ≡ false
      → (delete_pod ni pod).1 ≡ none
      → Released ni (delete_pod ni pod).0 pod b
  delete_pod-Released ni pod b e h apart ok_end =
      let step = delete_pod-release ni pod b e h in
      rw step (release-Released ni pod b apart (rw step at ok_end))

  -- On a node with consistent books, a pod that can be released leaves Total alone.
  pub delete_pod-apart :
      (ni : NodeInfo) (pod : Pod) (b : ℤ)
      → IsConsistent ni
      → bind_board pod ≡ some b
      → has_key Text_discrete pod.uid ni.pods ≡ true
      → (delete_pod ni pod).1 ≡ none
      → ni.shares_total b ≡ false
  delete_pod-apart ni pod b books e h ok_end =
      books.apart b (release_there ni pod b (rw (delete_pod-release ni pod b e h) at ok_end))

  -- A board that is in `Requested` with all of the pod's orins can be released.
  pub release-succeeds :
      (ni : NodeInfo) (pod : Pod) (b : ℤ)
      → has_key ℤ_discrete b ni.requested ≡ true
      → ((j o : ℤ) → asks pod b j o ≡ true → has_orin ni.requested j o ≡ true)
      → (release ni pod b).1 ≡ none
  unfolding release
  release-succeeds ni pod b there held =
      let asked = asked_details b pod in
      let fits =
        (difference-Covers_iff ni.requested asked (asked_details-Distinct b pod)).1 (record {
          boards = λ j e. ground (arith, has_key-asked_details b pod j);
          orins = λ j o e. ground (arith, held j o, has_orin-asked_details b pod j o);
        }) in
      elim (Result-cases (difference_from_superset ni.requested asked)) [
        | inl (d, h) ↦ rw (h, release) refl
        | inr (e, h) ↦ absurd (false≢true (sym (ap is_ok h) ∙ fits))
      ]
