-- ===== src/NodeInfo/UndoAdd.antt =====
-- `deletePod` after `addPod`.
use orin_device_system.Common.{
  ℤ, none, some, true, false, ◌&&◌, not, Text, Text_discrete, has_key, lookup, ◌≡◌, arith, ap, ap₂,
  sym, ◌∙◌,
}
use orin_device_system.Common.Sets.{IntSets}
use orin_device_system.Topo.Views.{has_orin}
use orin_device_system.Pods.{Pod}
use orin_device_system.Pods.Annotations.{bind_board}
use orin_device_system.NodeInfo.{NodeInfo, delete_pod, add_pod}
use orin_device_system.NodeInfo.Invariant.{
  IsConsistent, asks, add_pod-IsConsistent, delete_pod-IsConsistent,
}
use orin_device_system.NodeInfo.Release.{
  Reserved, Released, add_pod-Reserved, delete_pod-Released, delete_pod-release, release-succeeds,
}

-- Two nodes with the same pods, the same requests and the same free orins.
pub record SameBooks (ni ni' : NodeInfo) : Type 0 where
  pub same_total : ni'.total ≡ ni.total
  pub same_pods : (u : Text) → lookup Text_discrete u ni'.pods ≡ lookup Text_discrete u ni.pods
  pub same_requested : (j o : ℤ) → has_orin ni'.requested j o ≡ has_orin ni.requested j o
  pub same_allocatable : (j o : ℤ) → has_orin ni'.allocatable j o ≡ has_orin ni.allocatable j o

module _ ⦃S : IntSets⦄ (ni : NodeInfo) (pod : Pod) (b : ℤ) where
  -- The pod is new to the node, and nobody has requested one of its orins.
  pub record IsNew : Type 0 where
    pub bound : bind_board pod ≡ some b
    pub unknown : has_key Text_discrete pod.uid ni.pods ≡ false
    pub unclaimed : (j o : ℤ) → asks pod b j o ≡ true → has_orin ni.requested j o ≡ false

  there :
      {added : NodeInfo} → Reserved ni added pod b → has_key Text_discrete pod.uid added.pods ≡ true
  there r = ground (arith, r.recorded pod.uid)

  -- On a node with consistent books, after a successful `addPod` of a pod that is new to the node
  -- and asks for orins that nobody requested, `deletePod` succeeds and leaves the same pods, the
  -- same requests and the same free orins as before.
  pub delete_pod-add_pod :
      IsConsistent ni
      → IsNew
      → (add_pod ni pod).1 ≡ none
      → ((delete_pod (add_pod ni pod).0 pod).1 ≡ none)
        × SameBooks ni (delete_pod (add_pod ni pod).0 pod).0
  delete_pod-add_pod c fresh ok_end =
      let added = (add_pod ni pod).0 in
      let r = add_pod-Reserved ni pod b fresh.bound fresh.unknown ok_end in
      let known = there r in
      let c' = add_pod-IsConsistent ni pod c ok_end in
      let succeeds : (delete_pod added pod).1 ≡ none =
        rw (delete_pod-release added pod b fresh.bound known)
          (release-succeeds added pod b r.board_there (λ j o e. ground (arith, r.taken j o))) in
      let d = delete_pod-Released added pod b fresh.bound known r.apart succeeds in
      let c'' = delete_pod-IsConsistent added pod c' in
      let requests = λ (j o : ℤ). restored {added = added} r d j o in
      (
        succeeds,
        record {
          same_total = d.same_total ∙ r.same_total;
          same_pods = λ u. pods_restored {added = added} r d u;
          same_requested = requests;
          same_allocatable = λ j o.
              c''.left j o
              ∙ ap₂ (λ t q. t && not q) (ap (λ t. has_orin t j o) (d.same_total ∙ r.same_total))
                  (requests j o)
              ∙ sym (c.left j o);
        },
      )
    where
      restored :
          {added gone : NodeInfo}
          → Reserved ni added pod b
          → Released added gone pod b
          → (j o : ℤ) → has_orin gone.requested j o ≡ has_orin ni.requested j o
      restored r d j o = ground (arith, r.taken j o, d.freed j o, fresh.unclaimed j o)

      pods_restored :
          {added gone : NodeInfo}
          → Reserved ni added pod b
          → Released added gone pod b
          → (u : Text) → lookup Text_discrete u gone.pods ≡ lookup Text_discrete u ni.pods
      pods_restored r d u = ground (arith, r.recorded u, d.forgotten u, fresh.unknown)
