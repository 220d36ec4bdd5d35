-- ===== src/Manager/Race/Turns.antt =====
-- The turns of a call of `Bind`, and what `addPod` and `AssumePod` accept of them.
use orin_device_system.Common.{
  ℤ, ℤ_discrete, Bool-cases, Option, none, some, false, Text, Text_discrete, has_key, lookup,
  lookup-insert, if_neg, ◌≡◌, ◌≢◌, ap, arith, inl, inr,
}
use orin_device_system.Common.Sets.{IntSets, StringSets}
use orin_device_system.Topo.{board}
use orin_device_system.Topo.Difference.{Covers}
use orin_device_system.Allocator.{done, AllocatorResult, allocate, board_id_not_fount}
use orin_device_system.Allocator.BestFit.{Fits}
use orin_device_system.Pods.{Pod, add_pod_bind_annotation, build_request_orin_set}
use orin_device_system.Pods.Annotations.{bind_board}
use orin_device_system.NodeInfo
use orin_device_system.NodeInfo.{NodeInfo, NodeInfoError, request_on}
use orin_device_system.NodeInfo.Invariant.{IsConsistent, requested_with, has_orin-requested_with}
use orin_device_system.NodeInfo.Release.{add_pod-reserve, reserve-Covers}
use orin_device_system.Cache.{ScheduleCache, get_node, assume_pod, assumed_pod}
use orin_device_system.Cache.Effects.{knows}
use orin_device_system.Manager.{pod_allocator}
use orin_device_system.Manager.Race.{
  BindPhase, choosing, chosen, assumed, BindCall, chosen_phase, choose_phase, at_phase,
  assumed_phase, bind_turn,
}

module _ ⦃S : IntSets⦄ where
  -- `addPod` accepts whatever the node has, requested or not.
  pub there-accepted :
      (ni : NodeInfo) (pod : Pod) (b : ℤ)
      → IsConsistent ni
      → bind_board pod ≡ some b
      → has_key Text_discrete pod.uid ni.pods ≡ false
      → Fits ni.total (build_request_orin_set pod) b
      → (NodeInfo.add_pod ni pod).1 ≡ none
  unfolding lookup
  there-accepted ni pod b books bound unknown fits =
      rw (add_pod-reserve ni pod b bound unknown)
        (elim (reserve-Covers ni pod b books.requested_distinct) [
          | inl (succeeded, _) ↦ succeeded
          | inr (_, _, _, _, uncovered) ↦ absurd (uncovered covered)
        ])
    where
      covered : Covers ni.total (requested_with ni.requested b pod)
      covered = record {
        boards = λ j e. ground (
          arith,
          lookup-insert ℤ_discrete b j (request_on b pod (board ni.requested b)) ni.requested,
          books.covered.boards j,
          fits.there,
        );
        orins = λ j o e. ground (
          arith,
          has_orin-requested_with ni.requested b pod j o,
          fits.enough o,
          books.covered.orins j o,
        );
      }

  -- What fits the free orins fits the orins of the node.
  pub free-total :
      (ni : NodeInfo) (request : S.IntSet) (b : ℤ)
      → IsConsistent ni
      → Fits ni.allocatable request b
      → Fits ni.total request b
  free-total ni request b books fits = record {
    there = ground (arith, books.same_boards b, fits.there);
    enough = λ o e. ground (arith, fits.enough o, books.left b o);
  }

module _ ⦃S : IntSets⦄ ⦃T : StringSets⦄ where
  -- A call of `Bind` for a fetched pod, at a phase.
  abbrev pub call_at : Text → Pod → BindPhase → BindCall
  call_at node pod phase = record { node = node; pod = pod; phase = phase }

  -- `AssumePod` makes the cache know no pod but its own.
  pub assume_pod-others :
      (c : ScheduleCache) (pod : Pod) (node : Text) (ni : NodeInfo) (u : Text)
      → get_node c node ≡ some ni
      → u ≢ pod.uid
      → knows c u ≡ false
      → knows (assume_pod c pod node).0 u ≡ false
  unfolding assume_pod get_node assumed_pod
  assume_pod-others c pod node ni u cached other unknown =
      rw (cached, assume_pod)
        (elim (Bool-cases (knows c pod.uid)) [
          | inl h ↦ rw h unknown
          | inr h ↦ rw h (added (NodeInfo.add_pod ni pod))
        ])
    where
      added : (r : NodeInfo × Option NodeInfoError) → knows (assumed_pod c pod node r).0 u ≡ false
      added (ni', some e) = unknown
      added (ni', none) = ground (arith, lookup-insert Text_discrete pod.uid u pod c.pod_maps)

  pub choosing-turn :
      (c : ScheduleCache) (node : Text) (pod : Pod) (ni : NodeInfo) (res : AllocatorResult)
      → get_node c node ≡ some ni
      → allocate (pod_allocator pod) ni.allocatable (build_request_orin_set pod) ≡ done res
      → res.board_id ≢ board_id_not_fount
      → bind_turn choosing c (call_at node pod choosing)
        ≡ done (c, call_at node pod (chosen (add_pod_bind_annotation pod res.board_id)))
  unfolding bind_turn choose_phase chosen_phase at_phase
  choosing-turn c node pod ni res cached picked proper =
      rw (cached, choose_phase)
        (rw (picked, chosen_phase)
          (ap (λ p. at_phase c (call_at node pod choosing) (done p))
            (if_neg (ℤ_discrete res.board_id board_id_not_fount) proper _ _)))

  pub assuming-turn :
      (c : ScheduleCache) (node : Text) (pod new_pod : Pod)
      → (assume_pod c new_pod node).1 ≡ none
      → bind_turn (chosen new_pod) c (call_at node pod (chosen new_pod))
        ≡ done ((assume_pod c new_pod node).0, call_at node pod (assumed new_pod))
  unfolding bind_turn assumed_phase
  assuming-turn c node pod new_pod h =
      ap (λ e. done ((assume_pod c new_pod node).0, call_at node pod (assumed_phase new_pod e))) h
