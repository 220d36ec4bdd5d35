-- ===== src/Cache/Effects.antt =====
-- What `AssumePod` and `ForgetPod` do to the node and to the known pods.
use orin_device_system.Common.{
  ℤ, Option, none, some, Bool, true, false, Text, Text_discrete, has_key, lookup, lookup-insert,
  Option-cases, Bool-cases, inl, inr, ◌≡◌, ◌≢◌, refl, sym, ◌∙◌, ap, arith, ite,
}
use mathlib.Core.Option
use orin_device_system.Common.Sets.{IntSets, StringSets}
use orin_device_system.Pods.{Pod, board_annotation}
use orin_device_system.Pods.Annotations.{bind_board}
use orin_device_system.NodeInfo
use orin_device_system.NodeInfo.{NodeInfo, NodeInfoError}
use orin_device_system.NodeInfo.Invariant.{IsConsistent}
use orin_device_system.NodeInfo.Release.{Reserved, add_pod-Reserved}
use orin_device_system.NodeInfo.UndoAdd.{SameBooks, IsNew, delete_pod-add_pod}
use orin_device_system.Cache.{
  ScheduleCache, CacheError, node_not_found, pod_already_cached, with_node, get_node, assumed_pod,
  assume_pod, forgotten_pod, forget_pod,
}

module _ ⦃S : IntSets⦄ ⦃T : StringSets⦄ where
  abbrev pub knows : ScheduleCache → Text → Bool
  knows c uid = has_key Text_discrete uid c.pod_maps

  get_node-with_node :
      (c : ScheduleCache) (name other : Text) (ni : NodeInfo)
      → get_node (with_node c name ni) other
        ≡ ite (Text_discrete other name) (some ni) (get_node c other)
  unfolding get_node
  get_node-with_node c name other ni = lookup-insert Text_discrete name other ni c.node_cache

  -- `AssumePod` refuses a pod that is in the cache, and leaves the cache alone.
  pub assume_pod-known :
      (c : ScheduleCache) (pod : Pod) (node : Text)
      → has_key Text_discrete pod.uid c.pod_maps ≡ true
      → (e : CacheError) × (assume_pod c pod node ≡ (c, some e))
  unfolding assume_pod
  assume_pod-known c pod node h = elim (Option-cases (lookup Text_discrete node c.node_cache)) [
    | inl e ↦ (node_not_found, rw (e, assume_pod) refl)
    | inr (ni, e) ↦ (pod_already_cached, rw (e, assume_pod) (rw h refl))
  ]

  -- A node that holds the pod, in a cache that knows it.
  pub record Holds (c : ScheduleCache) (node : Text) (before : NodeInfo) (pod : Pod) (b : ℤ)
      : Type 0 where
    pub info : NodeInfo
    pub cached : get_node c node ≡ some info
    pub reserved : Reserved before info pod b
    pub known : knows c pod.uid ≡ true

  assumed_pod-added :
      (c : ScheduleCache) (pod : Pod) (node : Text) (r : NodeInfo × Option NodeInfoError)
      → (assumed_pod c pod node r).1 ≡ none
      → (r.1 ≡ none)
        × (get_node (assumed_pod c pod node r).0 node ≡ some r.0)
        × (knows (assumed_pod c pod node r).0 pod.uid ≡ true)
  unfolding assumed_pod get_node
  assumed_pod-added c pod node (ni, some e) h = absurd (Option.some-ne-none _ h)
  assumed_pod-added c pod node (ni, none) h = (
    refl,
    ground (arith, lookup-insert Text_discrete node node ni c.node_cache),
    ground (arith, lookup-insert Text_discrete pod.uid pod.uid pod c.pod_maps),
  )

  -- `AssumePod` succeeds only for a pod that was not known, and then does what `addPod` does.
  pub assume_pod-added :
      (c : ScheduleCache) (pod : Pod) (node : Text) (ni : NodeInfo)
      → get_node c node ≡ some ni
      → (assume_pod c pod node).1 ≡ none
      → ((NodeInfo.add_pod ni pod).1 ≡ none)
        × (get_node (assume_pod c pod node).0 node ≡ some (NodeInfo.add_pod ni pod).0)
        × (knows (assume_pod c pod node).0 pod.uid ≡ true)
  unfolding assume_pod get_node
  assume_pod-added c pod node ni e ok_end = elim (Bool-cases (knows c pod.uid)) [
    | inl k ↦
        absurd (Option.some-ne-none pod_already_cached (rw k at (rw (e, assume_pod) at ok_end)))
    | inr k ↦
        rw (e, assume_pod)
          (rw k (
            assumed_pod-added c pod node (NodeInfo.add_pod ni pod)
              (rw k at (rw (e, assume_pod) at ok_end))))
  ]

  -- After a successful `AssumePod` on a cached node of a pod that is bound to a board and new to
  -- the node, the node has recorded the pod, requests exactly the pod's orins on the board besides
  -- what it requested before, and the cache knows the pod.
  pub assume_pod-Holds :
      (c : ScheduleCache) (pod : Pod) (node : Text) (ni : NodeInfo) (b : ℤ)
      → get_node c node ≡ some ni
      → bind_board pod ≡ some b
      → has_key Text_discrete pod.uid ni.pods ≡ false
      → (assume_pod c pod node).1 ≡ none
      → Holds (assume_pod c pod node).0 node ni pod b
  assume_pod-Holds c pod node ni b e bound fresh ok_end =
      let (added, cached, known) = assume_pod-added c pod node ni e ok_end in
      record {
        info = (NodeInfo.add_pod ni pod).0;
        cached = cached;
        reserved = add_pod-Reserved ni pod b bound fresh added;
        known = known;
      }

  forget_pod-known :
      (c : ScheduleCache) (pod : Pod) (node : Text) (ni : NodeInfo)
      → get_node c node ≡ some ni
      → knows c pod.uid ≡ true
      → (get_node (forget_pod c pod node).0 node ≡ some (NodeInfo.delete_pod ni pod).0)
        × ((forget_pod c pod node).0.pod_maps ≡ c.pod_maps)
  unfolding forget_pod forgotten_pod get_node
  forget_pod-known c pod node ni e known =
      rw (e, forget_pod)
        (rw known (
          ground (
            arith,
            lookup-insert Text_discrete node node (NodeInfo.delete_pod ni pod).0 c.node_cache,
          ),
          refl,
        ))

  delete_pod-unannotated :
      (ni : NodeInfo) (pod : Pod)
      → board_annotation pod ≡ none
      → NodeInfo.delete_pod ni pod ≡ (ni, none)
  unfolding NodeInfo.delete_pod
  delete_pod-unannotated ni pod e = rw (e, NodeInfo.delete_pod) refl

  -- `ForgetPod` of a copy without the annotation leaves the node as it is.
  pub forget_pod-unannotated :
      (c : ScheduleCache) (pod : Pod) (node : Text) (ni : NodeInfo)
      → get_node c node ≡ some ni
      → knows c pod.uid ≡ true
      → board_annotation pod ≡ none
      → (get_node (forget_pod c pod node).0 node ≡ some ni)
        × (knows (forget_pod c pod node).0 pod.uid ≡ true)
  forget_pod-unannotated c pod node ni e known bare =
      let (cached, same) = forget_pod-known c pod node ni e known in
      (
        cached
            ∙ ap (λ (r : NodeInfo × Option NodeInfoError). some r.0)
                (delete_pod-unannotated ni pod bare),
        ap (λ m. has_key Text_discrete pod.uid m) same ∙ known,
      )

  -- After a successful `AssumePod` on a node with consistent books of a pod that is new to it and
  -- asks for orins that nobody requested, `ForgetPod` restores the books of the node; but the
  -- cache still knows the pod, and `AssumePod` of it fails.
  pub forget_pod-assume_pod :
      (c : ScheduleCache) (pod : Pod) (node : Text) (ni : NodeInfo) (b : ℤ)
      → get_node c node ≡ some ni
      → IsConsistent ni
      → IsNew ni pod b
      → (assume_pod c pod node).1 ≡ none
      → let c' = (forget_pod (assume_pod c pod node).0 pod node).0 in
        (ni' : NodeInfo) × (get_node c' node ≡ some ni')
        × SameBooks ni ni'
        × (knows c' pod.uid ≡ true)
        × ((assume_pod c' pod node).1 ≢ none)
  forget_pod-assume_pod c pod node ni b e books fresh ok_end =
      let (added, cached, known) = assume_pod-added c pod node ni e ok_end in
      let ni1 = (NodeInfo.add_pod ni pod).0 in
      let (forgotten, same) =
        forget_pod-known (assume_pod c pod node).0 pod node ni1 cached known in
      let (_, restored) = delete_pod-add_pod ni pod b books fresh added in
      let still = ap (λ m. has_key Text_discrete pod.uid m) same ∙ known in
      (
        (NodeInfo.delete_pod ni1 pod).0,
        forgotten,
        restored,
        still,
        λ again.
            let (refusal, unchanged) =
              assume_pod-known (forget_pod (assume_pod c pod node).0 pod node).0 pod node still in
            Option.some-ne-none refusal
              (sym (ap (λ (r : ScheduleCache × Option CacheError). r.1) unchanged) ∙ again),
      )
