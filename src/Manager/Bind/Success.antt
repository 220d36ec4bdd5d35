-- ===== src/Manager/Bind/Success.antt =====
-- `Bind` on a node with consistent books, where the API server accepts what it is sent.
use orin_device_system.Common.{
  Option, none, some, false, Text, Text_discrete, has_key, ok, ◌≡◌, ◌≢◌, refl,
}
use mathlib.Core.Option
use orin_device_system.Common.Sets.{IntSets, StringSets}
use orin_device_system.Names.RoundTrip.{IsInt64}
use orin_device_system.Allocator.{done, AllocatorResult, allocate, board_id_not_fount}
use orin_device_system.Allocator.BestFit.{IsSane}
use orin_device_system.Pods.{Pod, add_pod_bind_annotation, build_request_orin_set}
use orin_device_system.NodeInfo
use orin_device_system.NodeInfo.{NodeInfo, NodeInfoError}
use orin_device_system.NodeInfo.Invariant.{IsConsistent}
use orin_device_system.Cache.{ScheduleCache, assume_pod, assumed_pod, get_node}
use orin_device_system.Cache.Effects.{Holds}
use orin_device_system.Manager.{pod_allocator}
use orin_device_system.Manager.Choice.{allocate-IsNew}
use orin_device_system.Manager.Bind.{Api, Retry, BindState, get_pod_from_apiserver, bind}
use orin_device_system.Manager.Bind.Attempt.{Assumes, bind-Holds}

module _ ⦃S : IntSets⦄ ⦃T : StringSets⦄ where
  assumed_pod-none :
      (c : ScheduleCache) (pod : Pod) (node : Text) (r : NodeInfo × Option NodeInfoError)
      → r.1 ≡ none
      → (assumed_pod c pod node r).1 ≡ none
  unfolding assumed_pod
  assumed_pod-none c pod node (ni, none) h = refl
  assumed_pod-none c pod node (ni, some e) h = absurd (Option.some-ne-none e h)

  -- `AssumePod` succeeds for a pod that the cache does not know, if its node accepts it.
  pub assume_pod-none :
      (c : ScheduleCache) (pod : Pod) (node : Text) (ni : NodeInfo)
      → get_node c node ≡ some ni
      → has_key Text_discrete pod.uid c.pod_maps ≡ false
      → (NodeInfo.add_pod ni pod).1 ≡ none
      → (assume_pod c pod node).1 ≡ none
  unfolding assume_pod get_node
  assume_pod-none c pod node ni cached unknown accepted =
      rw (cached, assume_pod)
        (rw unknown (assumed_pod-none c pod node (NodeInfo.add_pod ni pod) accepted))

  module _ (api : Api) (w : api.World) (c : ScheduleCache)
      (node name namespace pod_uid : Text) where
    -- A pod that `Bind` can place: it is fetched, neither the cache nor the node has it, the books of
    -- the node are consistent, its free orins are a sane map, and the allocator chooses a board.
    pub record Placeable : Type 0 where
      pub pod : Pod
      pub world : api.World
      pub fetched : get_pod_from_apiserver api w name namespace pod_uid ≡ (world, ok pod)
      pub info : NodeInfo
      pub cached : get_node c node ≡ some info
      pub unknown_to_cache : has_key Text_discrete pod.uid c.pod_maps ≡ false
      pub unknown_to_node : has_key Text_discrete pod.uid info.pods ≡ false
      pub books : IsConsistent info
      pub sane : IsSane info.allocatable
      pub res : AllocatorResult
      pub chosen :
          allocate (pod_allocator pod) info.allocatable (build_request_orin_set pod) ≡ done res
      pub proper : res.board_id ≢ board_id_not_fount
      pub int64 : IsInt64 res.board_id

    Placeable-Assumes : Placeable → Assumes api w c node name namespace pod_uid
    unfolding add_pod_bind_annotation
    Placeable-Assumes p =
        let bound = add_pod_bind_annotation p.pod p.res.board_id in
        let (_, accepted) =
          allocate-IsNew p.info p.pod (pod_allocator p.pod) p.res p.books p.sane p.int64
            p.unknown_to_node p.chosen p.proper in
        record {
          pod = p.pod;
          world = p.world;
          fetched = p.fetched;
          info = p.info;
          cached = p.cached;
          unknown = p.unknown_to_node;
          res = p.res;
          chosen = p.chosen;
          proper = p.proper;
          int64 = p.int64;
          assumed = assume_pod-none c bound node p.info p.cached p.unknown_to_cache accepted;
        }

    -- If `Bind` can place the pod (`Placeable`) and the API server accepts the update and the
    -- binding, then `Bind` returns no error, and in the cache that it leaves, the node requests
    -- the pod's orins on the chosen board besides what it requested before, and the cache knows
    -- the pod.
    pub bind-succeeds :
        (retry : Retry) (p : Placeable)
        → (api.update_pod p.world (add_pod_bind_annotation p.pod p.res.board_id)).1 ≡ none
        → (api.bind_pod
            (api.update_pod p.world (add_pod_bind_annotation p.pod p.res.board_id)).0
            namespace
            name
            pod_uid
            node).1
          ≡ none
        → (t : BindState api) × (bind api retry w c node name namespace pod_uid ≡ done (t, none))
          × Holds t.cache node p.info (add_pod_bind_annotation p.pod p.res.board_id) p.res.board_id
    unfolding Placeable-Assumes
    bind-succeeds retry p updated bound =
        let (e, held) =
          bind-Holds api w c node name namespace pod_uid retry (Placeable-Assumes p) updated
            bound in
        (_, e, held)
