-- ===== src/Manager/Race/Sharing.antt =====
-- Two calls of `Bind` that choose before either has assumed its pod.
use orin_device_system.Common.{
  ℤ, [], ◌∷◌, none, some, true, false, Text, Text_discrete, has_key, ◌≡◌, ◌≢◌, refl, sym, subst,
  arith,
}
use orin_device_system.Common.Sets.{IntSets, StringSets}
use orin_device_system.Names.RoundTrip.{IsInt64}
use orin_device_system.Allocator.{done, allocate, board_id_not_fount}
use orin_device_system.Allocator.BestFit.{Fits, IsSane}
use orin_device_system.Pods.{Pod, add_pod_bind_annotation, build_request_orin_set}
use orin_device_system.Pods.Annotations.{bind_board-add}
use orin_device_system.NodeInfo
use orin_device_system.NodeInfo.{NodeInfo, NodeInfoError, request_on}
use orin_device_system.NodeInfo.Invariant.{IsConsistent, add_pod-IsConsistent}
use orin_device_system.NodeInfo.Release.{Reserved, add_pod-Reserved}
use orin_device_system.NodeInfo.Ownership.{Owns}
use orin_device_system.Cache.{ScheduleCache, get_node, assume_pod}
use orin_device_system.Cache.Effects.{knows, assume_pod-added}
use orin_device_system.Manager.{pod_allocator}
use orin_device_system.Manager.Choice.{allocate-Fits, allocate-IsNew}
use orin_device_system.Manager.Bind.Success.{assume_pod-none}
use orin_device_system.Manager.Race.{choosing, assumed, interleave}
use orin_device_system.Manager.Race.Turns.{
  assume_pod-others, assuming-turn, call_at, choosing-turn, free-total, there-accepted,
}

module _ ⦃S : IntSets⦄ ⦃T : StringSets⦄ where
  -- Two pods that one of the node's boards can host, as the allocator sees it in the same books.
  pub record Racing (c : ScheduleCache) (node : Text) (p q : Pod) : Type 0 where
    pub info : NodeInfo
    pub cached : get_node c node ≡ some info
    pub books : IsConsistent info
    pub sane : IsSane info.allocatable
    pub b : ℤ
    pub int64 : IsInt64 b
    pub proper : b ≢ board_id_not_fount
    pub others : q.uid ≢ p.uid
    pub unknown_p : knows c p.uid ≡ false
    pub unknown_q : knows c q.uid ≡ false
    pub new_p : has_key Text_discrete p.uid info.pods ≡ false
    pub new_q : has_key Text_discrete q.uid info.pods ≡ false
    pub score_p : ℤ
    pub score_q : ℤ
    pub picked_p :
        allocate (pod_allocator p) info.allocatable (build_request_orin_set p)
        ≡ done (record { score = score_p; board_id = b })
    pub picked_q :
        allocate (pod_allocator q) info.allocatable (build_request_orin_set q)
        ≡ done (record { score = score_q; board_id = b })

  -- A node with consistent books that has both pods, and both ask for orin `o` of board `b`.
  pub record Overbooked (c : ScheduleCache) (node : Text) (p q : Pod) (b o : ℤ) : Type 0 where
    pub info : NodeInfo
    pub cached : get_node c node ≡ some info
    pub books : IsConsistent info
    pub first : Owns info p.uid b o
    pub second : Owns info q.uid b o

  module _ (c : ScheduleCache) (node : Text) (p q : Pod) (r : Racing c node p q) where
    abbrev pub bound_first : Pod
    bound_first = add_pod_bind_annotation p r.b

    abbrev pub bound_second : Pod
    bound_second = add_pod_bind_annotation q r.b

    abbrev first_cache : ScheduleCache
    first_cache = (assume_pod c bound_first node).0

    abbrev first_info : NodeInfo
    first_info = (NodeInfo.add_pod r.info bound_first).0

    first_accepted : (NodeInfo.add_pod r.info bound_first).1 ≡ none
    first_accepted =
        (allocate-IsNew r.info p (pod_allocator p) (record { score = r.score_p; board_id = r.b })
          r.books r.sane r.int64 r.new_p r.picked_p r.proper).1

    first_assumed : (assume_pod c bound_first node).1 ≡ none
    unfolding add_pod_bind_annotation
    first_assumed = assume_pod-none c bound_first node r.info r.cached r.unknown_p first_accepted

    first_Reserved : Reserved r.info first_info bound_first r.b
    unfolding add_pod_bind_annotation
    first_Reserved =
        add_pod-Reserved r.info bound_first r.b (bind_board-add p r.b r.int64).0 r.new_p
          first_accepted

    second_new : has_key Text_discrete q.uid first_info.pods ≡ false
    unfolding add_pod_bind_annotation
    second_new = ground (arith, first_Reserved.recorded q.uid, r.others, r.new_q)

    -- The board still has what the second pod asks for, whether it is free or not.
    second_accepted : (NodeInfo.add_pod first_info bound_second).1 ≡ none
    unfolding add_pod_bind_annotation build_request_orin_set
    second_accepted =
        there-accepted first_info bound_second r.b
          (add_pod-IsConsistent r.info bound_first r.books first_accepted)
          (bind_board-add q r.b r.int64).0 second_new
          (subst (λ t. Fits t (build_request_orin_set q) r.b) (sym first_Reserved.same_total)
            (free-total r.info (build_request_orin_set q) r.b r.books (
              allocate-Fits (pod_allocator q) r.info.allocatable (build_request_orin_set q)
                (record { score = r.score_q; board_id = r.b }) r.sane r.picked_q r.proper)))

    abbrev last_cache : ScheduleCache
    last_cache = (assume_pod first_cache bound_second node).0

    abbrev last_info : NodeInfo
    last_info = (NodeInfo.add_pod first_info bound_second).0

    first_cached : get_node first_cache node ≡ some first_info
    first_cached = (assume_pod-added c bound_first node r.info r.cached first_assumed).1

    second_assumed : (assume_pod first_cache bound_second node).1 ≡ none
    unfolding add_pod_bind_annotation
    second_assumed =
        assume_pod-none first_cache bound_second node first_info first_cached
          (assume_pod-others c bound_first node r.info q.uid r.cached r.others r.unknown_q)
          second_accepted

    second_Reserved : Reserved first_info last_info bound_second r.b
    unfolding add_pod_bind_annotation
    second_Reserved =
        add_pod-Reserved first_info bound_second r.b (bind_board-add q r.b r.int64).0 second_new
          second_accepted

    both_booked :
        (o : ℤ)
        → S.has o (build_request_orin_set p) ≡ true
        → S.has o (build_request_orin_set q) ≡ true
        → Overbooked last_cache node p q r.b o
    unfolding add_pod_bind_annotation build_request_orin_set
    both_booked o asks_p asks_q = record {
      info = last_info;
      cached =
          (assume_pod-added first_cache bound_second node first_info first_cached second_assumed).1;
      books =
          add_pod-IsConsistent first_info bound_second
            (add_pod-IsConsistent r.info bound_first r.books first_accepted) second_accepted;
      first = record {
        owner = bound_first;
        board_id = r.b;
        recorded =
            ground (arith, second_Reserved.recorded p.uid, first_Reserved.recorded p.uid, r.others);
        bound = (bind_board-add p r.b r.int64).0;
        asked = ground (arith, asks_p);
      };
      second = record {
        owner = bound_second;
        board_id = r.b;
        recorded = ground (arith, second_Reserved.recorded q.uid);
        bound = (bind_board-add q r.b r.int64).0;
        asked = ground (arith, asks_q);
      };
    }

    -- If the allocator picks the same board of a node with consistent books for two new pods, and
    -- both calls of `Bind` choose before either calls `AssumePod`, then both assume their pods: the
    -- books of the node stay consistent, but each orin that both pods ask for is given to both.
    pub interleave-Overbooked :
        (o : ℤ)
        → S.has o (build_request_orin_set p) ≡ true
        → S.has o (build_request_orin_set q) ≡ true
        → (c' : ScheduleCache) × (interleave
              (true ∷ false ∷ true ∷ false ∷ [])
              c
              (call_at node p choosing)
              (call_at node q choosing)
            ≡ done
                (c', call_at node p (assumed bound_first), call_at node q (assumed bound_second)))
          × Overbooked c' node p q r.b o
    unfolding interleave
    interleave-Overbooked o asks_p asks_q = (
      last_cache,
      rw (choosing-turn c node p r.info _ r.cached r.picked_p r.proper, interleave)
          (rw (choosing-turn c node q r.info _ r.cached r.picked_q r.proper, interleave)
            (rw (assuming-turn c node p bound_first first_assumed, interleave)
              (rw (assuming-turn first_cache node q bound_second second_assumed, interleave)
                refl))),
      both_booked o asks_p asks_q,
    )
