-- ===== src/NodeInfo/AddAgain.antt =====
-- `addPod` of a pod that is there already, as after a restart, when a node is added with its pods and
-- the pods are then added one by one.
use orin_device_system.Common.{
  ℤ, ℤ_discrete, Option, none, some, true, false, ◌&&◌, not, Text, Text_discrete, has_key, lookup,
  lookup-insert, if_pos, if_neg, ◌≡◌, inl, inr, refl, sym, ap, ap₂, ◌∙◌, subst, arith,
}
use mathlib.Core.Option
use orin_device_system.Common.Sets.{IntSets}
use orin_device_system.Topo.{board}
use orin_device_system.Topo.Views.{has_orin}
use orin_device_system.Topo.Difference.{Covers}
use orin_device_system.Pods.{Pod}
use orin_device_system.Pods.Annotations.{bind_board}
use orin_device_system.NodeInfo.{
  NodeInfo, NodeInfoError, add_pod, delete_pod, reserve, reserve_anew, request_on,
}
use orin_device_system.NodeInfo.Invariant.{
  IsConsistent, asks, requested_with, has_orin-requested_with, add_pod-IsConsistent,
  delete_pod-IsConsistent,
}
use orin_device_system.NodeInfo.Release.{
  Reserved, Released, reserve-Covers, add_pod-reserve, add_pod-Reserved, delete_pod-release,
  delete_pod-Released, release-succeeds,
}
use orin_device_system.NodeInfo.UndoAdd.{SameBooks}

module _ ⦃S : IntSets⦄ where
  reserve_anew-none :
      (r : NodeInfo × Option NodeInfoError) (pod : Pod) (b : ℤ)
      → r.1 ≡ none
      → reserve_anew r pod b ≡ reserve r.0 pod b
  unfolding reserve_anew
  reserve_anew-none (ni, none) pod b h = refl
  reserve_anew-none (ni, some e) pod b h = absurd (Option.some-ne-none e h)

  add_pod-anew :
      (ni : NodeInfo) (pod : Pod) (b : ℤ)
      → bind_board pod ≡ some b
      → has_key Text_discrete pod.uid ni.pods ≡ true
      → add_pod ni pod ≡ reserve_anew (delete_pod ni pod) pod b
  unfolding add_pod bind_board
  add_pod-anew ni pod b e h = ground arith

  -- The node has recorded the pod on board `b`, and requests its orins.
  pub record IsHeld (ni : NodeInfo) (pod : Pod) (b : ℤ) : Type 0 where
    pub bound : bind_board pod ≡ some b
    pub recorded : lookup Text_discrete pod.uid ni.pods ≡ some pod
    pub board_there : has_key ℤ_discrete b ni.requested ≡ true
    pub requested : (j o : ℤ) → asks pod b j o ≡ true → has_orin ni.requested j o ≡ true

  module _ (ni : NodeInfo) (pod : Pod) (b : ℤ) (books : IsConsistent ni)
      (held : IsHeld ni pod b) where
    known : has_key Text_discrete pod.uid ni.pods ≡ true
    known = ground (arith, held.recorded)

    left_node : NodeInfo
    left_node = (delete_pod ni pod).0

    deleted : (delete_pod ni pod).1 ≡ none
    deleted =
        rw (delete_pod-release ni pod b held.bound known)
          (release-succeeds ni pod b held.board_there held.requested)

    gone : Released ni left_node pod b
    unfolding left_node
    gone = delete_pod-Released ni pod b held.bound known (books.apart b held.board_there) deleted

    left-IsConsistent : IsConsistent left_node
    unfolding left_node
    left-IsConsistent = delete_pod-IsConsistent ni pod books

    unknown : has_key Text_discrete pod.uid left_node.pods ≡ false
    unknown = ground (arith, gone.forgotten pod.uid)

    same_step : add_pod ni pod ≡ add_pod left_node pod
    unfolding left_node
    same_step =
        add_pod-anew ni pod b held.bound known
        ∙ reserve_anew-none (delete_pod ni pod) pod b deleted
        ∙ sym (add_pod-reserve left_node pod b held.bound unknown)

    again-Covers : Covers left_node.total (requested_with left_node.requested b pod)
    again-Covers = record {
      boards = λ j e. ground (
        arith,
        lookup-insert ℤ_discrete b j (request_on b pod (board left_node.requested b))
            left_node.requested,
        left-IsConsistent.covered.boards j,
        books.covered.boards b,
        held.board_there,
        gone.same_total,
      );
      orins = λ j o e. ground (
        arith,
        has_orin-requested_with left_node.requested b pod j o,
        left-IsConsistent.covered.orins j o,
        held.requested j o,
        books.covered.orins j o,
        gone.same_total,
      );
    }

    accepted : (add_pod left_node pod).1 ≡ none
    accepted =
        rw (add_pod-reserve left_node pod b held.bound unknown)
          (elim (reserve-Covers left_node pod b left-IsConsistent.requested_distinct) [
            | inl (succeeded, _) ↦ succeeded
            | inr (_, _, _, _, uncovered) ↦ absurd (uncovered again-Covers)
          ])

    added_again : Reserved left_node (add_pod left_node pod).0 pod b
    added_again = add_pod-Reserved left_node pod b held.bound unknown accepted

    again-IsConsistent : IsConsistent (add_pod left_node pod).0
    again-IsConsistent = add_pod-IsConsistent left_node pod left-IsConsistent accepted

    again_requested :
        (j o : ℤ) → has_orin (add_pod left_node pod).0.requested j o ≡ has_orin ni.requested j o
    again_requested j o = ground (arith, added_again.taken j o, gone.freed j o, held.requested j o)

    again_pods :
        (u : Text)
        → lookup Text_discrete u (add_pod left_node pod).0.pods ≡ lookup Text_discrete u ni.pods
    again_pods u = elim (Text_discrete u pod.uid) [
      | yes p ↦
          added_again.recorded u
          ∙ if_pos (Text_discrete u pod.uid) p _ _
          ∙ sym held.recorded
          ∙ ap (λ v. lookup Text_discrete v ni.pods) (sym p)
      | no n ↦
          added_again.recorded u
          ∙ if_neg (Text_discrete u pod.uid) n _ _
          ∙ gone.forgotten u
          ∙ if_neg (Text_discrete u pod.uid) n _ _
    ]

    again-SameBooks : SameBooks ni (add_pod left_node pod).0
    again-SameBooks =
        let same_total = added_again.same_total ∙ gone.same_total in
        record {
          same_total = same_total;
          same_pods = again_pods;
          same_requested = again_requested;
          same_allocatable = λ j o.
              again-IsConsistent.left j o
              ∙ ap₂ (λ t q. t && not q) (ap (λ t. has_orin t j o) same_total) (again_requested j o)
              ∙ sym (books.left j o);
        }

    -- On a node with consistent books that has recorded the pod on its board and requests its
    -- orins, `addPod` of the same pod succeeds and leaves the same pods, the same requests and the
    -- same free orins.
    pub add_pod-SameBooks : ((add_pod ni pod).1 ≡ none) × SameBooks ni (add_pod ni pod).0
    add_pod-SameBooks =
        subst (λ (r : NodeInfo × Option NodeInfoError). (r.1 ≡ none) × SameBooks ni r.0)
          (sym same_step) (accepted, again-SameBooks)
