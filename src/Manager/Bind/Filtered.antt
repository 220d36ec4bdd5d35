-- ===== src/Manager/Bind/Filtered.antt =====
-- The way of a pod through the extender: `Predicate` and then `Bind`, of
-- pkg/scheduler/manager/manager.go.
use orin_device_system.Common.{
  ℕ, ℤ, ℤ_discrete, List, [], none, some, true, false, Text, Text_discrete, has_key, ok, ◌≡◌, ◌≢◌,
  refl, sym, ap, ◌∙◌, arith, inl, inr,
}
use orin_device_system.Common.Sets.{IntSets, StringSets}
use orin_device_system.Names.RoundTrip.{IsInt64}
use orin_device_system.Allocator.{done, binpack_allocator, binpack_allocate, allocate}
use orin_device_system.Allocator.BestFit.{Found, binpack_allocate-best}
use orin_device_system.Pods.{Pod, add_pod_bind_annotation, build_request_orin_set}
use orin_device_system.NodeInfo.{NodeInfo}
use orin_device_system.NodeInfo.Invariant.{IsConsistent}
use orin_device_system.Cache.{ScheduleCache, get_node}
use orin_device_system.Cache.Effects.{Holds}
use orin_device_system.Manager.{Filtered, pod_allocator}
use orin_device_system.Manager.Rounds.{mem, CanHost, NodesSane}
use orin_device_system.Manager.Parallel.{all_returned}
use orin_device_system.Manager.Parallel.Calls.{
  predicate_pool, predicate_parallel, predicate_parallel-Answer,
}
use orin_device_system.Manager.Bind.{Api, Retry, BindState, get_pod_from_apiserver, bind}
use orin_device_system.Manager.Bind.Success.{Placeable, bind-succeeds}

module _ ⦃S : IntSets⦄ ⦃T : StringSets⦄ (c : ScheduleCache) (pod : Pod) where
  -- What the cache keeps of a node that does not have the pod yet.
  pub record IsReady (node : Text) : Type 0 where
    pub books : (ni : NodeInfo) → get_node c node ≡ some ni → IsConsistent ni
    pub unknown :
        (ni : NodeInfo) → get_node c node ≡ some ni → has_key Text_discrete pod.uid ni.pods ≡ false
    pub boards :
        (ni : NodeInfo) (b : ℤ)
        → get_node c node ≡ some ni
        → has_key ℤ_discrete b ni.total ≡ true
        → IsInt64 b

  -- The node holds the pod on the tightest of the boards that could host it.
  pub record BestPlaced (before after : ScheduleCache) (node : Text) : Type 0 where
    pub info : NodeInfo
    pub cached : get_node before node ≡ some info
    pub found :
        Found info.allocatable
          (build_request_orin_set pod)
          (binpack_allocate info.allocatable (build_request_orin_set pod))
    pub held :
        let b = (binpack_allocate info.allocatable (build_request_orin_set pod)).board_id in
        Holds after node info (add_pod_bind_annotation pod b) b

  -- The nodes that `Predicate` passes can host the pod.
  passed-CanHost :
      (nodes : List Text) (schedule : List ℕ) (r : Filtered) (node : Text)
      → pod_allocator pod ≡ some binpack_allocator
      → NodesSane c (build_request_orin_set pod)
      → all_returned (predicate_pool c nodes pod schedule).workers ≡ true
      → predicate_parallel c nodes pod schedule ≡ done r
      → node ≢ []
      → mem node r.nodes ≡ true
      → CanHost c (build_request_orin_set pod) node
  passed-CanHost nodes schedule r node policy sane all answered named passed =
      let (r', e, (_, answer)) = predicate_parallel-Answer c nodes pod schedule policy sane all in
      let same : r ≡ r' = cc in
      ((answer.passes node named).0 (ap (λ (f : Filtered). mem node f.nodes) (sym same) ∙ passed)).1

  module _ (api : Api) (w w' : api.World) (node name namespace pod_uid : Text) where
    -- A node that can host the pod places it.
    CanHost-Placeable :
        pod_allocator pod ≡ some binpack_allocator
        → NodesSane c (build_request_orin_set pod)
        → IsReady node
        → has_key Text_discrete pod.uid c.pod_maps ≡ false
        → get_pod_from_apiserver api w name namespace pod_uid ≡ (w', ok pod)
        → (host : CanHost c (build_request_orin_set pod) node)
        → Found host.info.allocatable
            (build_request_orin_set pod)
            (binpack_allocate host.info.allocatable (build_request_orin_set pod))
        → Placeable api w c node name namespace pod_uid
    unfolding allocate
    CanHost-Placeable policy sane ready unknown fetched host found = record {
      pod = pod;
      world = w';
      fetched = fetched;
      info = host.info;
      cached = host.cached;
      unknown_to_cache = unknown;
      unknown_to_node = ready.unknown host.info host.cached;
      books = ready.books host.info host.cached;
      sane = sane node host.info host.cached;
      res = binpack_allocate host.info.allocatable (build_request_orin_set pod);
      chosen = rw policy refl;
      proper = found.proper;
      int64 = ready.boards host.info _ host.cached (
          ground (
            arith,
            (ready.books host.info host.cached).same_boards
                (binpack_allocate host.info.allocatable (build_request_orin_set pod)).board_id,
            found.fits.there,
          ));
    }

    -- A node that `Predicate` passes, with any schedule of its workers, for a pod with the binpack
    -- policy: if the cache does not know the pod, the free orins of the cached nodes are sane maps
    -- and the books of this node are consistent, without the pod and with ints as board IDs, then
    -- `Bind` of this pod to this node, where the API server gives the same pod and accepts what it
    -- is sent, returns no error, and the node holds the pod on a board that had its orins free, and
    -- no other such board had fewer orins free.
    pub predicate_parallel-bind :
        (retry : Retry) (nodes : List Text) (schedule : List ℕ) (r : Filtered)
        → pod_allocator pod ≡ some binpack_allocator
        → NodesSane c (build_request_orin_set pod)
        → IsReady node
        → has_key Text_discrete pod.uid c.pod_maps ≡ false
        → all_returned (predicate_pool c nodes pod schedule).workers ≡ true
        → predicate_parallel c nodes pod schedule ≡ done r
        → node ≢ []
        → mem node r.nodes ≡ true
        → get_pod_from_apiserver api w name namespace pod_uid ≡ (w', ok pod)
        → ((v : api.World) (p : Pod) → (api.update_pod v p).1 ≡ none)
        → ((v : api.World) → (api.bind_pod v namespace name pod_uid node).1 ≡ none)
        → (t : BindState api) × (bind api retry w c node name namespace pod_uid ≡ done (t, none))
          × BestPlaced c t.cache node
    unfolding CanHost-Placeable
    predicate_parallel-bind retry nodes schedule r policy sane ready unknown all answered named
          passed fetched updates binds =
        let host = passed-CanHost nodes schedule r node policy sane all answered named passed in
        elim (binpack_allocate-best host.info.allocatable (build_request_orin_set pod)
          (sane node host.info host.cached)) [
            | inl missing ↦ absurd (missing.none_fits host.board_id host.fits)
            | inr found ↦
                let place = CanHost-Placeable policy sane ready unknown fetched host found in
                let (t, returned, held) =
                  bind-succeeds api w c node name namespace pod_uid retry place (updates _ _)
                    (binds _) in
                (
                  t,
                  returned,
                  record { info = host.info; cached = host.cached; found = found; held = held },
                )
          ]
