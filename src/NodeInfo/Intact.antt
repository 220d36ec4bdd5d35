-- ===== src/NodeInfo/Intact.antt =====
-- `Total` of pkg/scheduler/manager/cache.go under the operations of a node with consistent books.
use orin_device_system.Common.{
  ℤ, List, [], ◌∷◌, Option, none, some, Text_discrete, has_key, ◌≡◌, refl, sym, ◌∙◌, ap,
  Option-cases, Bool-cases, Result-cases, inl, inr,
}
use orin_device_system.Common.Sets.{IntSets}
use orin_device_system.Names.{parse_int}
use orin_device_system.Topo.{difference_from_superset}
use orin_device_system.Pods.{Pod, Node, board_annotation}
use orin_device_system.NodeInfo.{
  NodeInfo, NodeInfoError, release, delete_pod, reserve, reserve_anew, add_pod, add_pods,
  new_node_info,
}
use orin_device_system.NodeInfo.Invariant.{
  IsConsistent, asked_details, requested_with, delete_pod-IsConsistent, add_pod-IsConsistent,
}
use orin_device_system.NodeInfo.Identity.{capacity_of}
use orin_device_system.NodeInfo.Capacity.{Accepted, bare_node, new_node_info-IsConsistent}
use orin_device_system.NodeInfo.Release.{release_there}

module _ ⦃S : IntSets⦄ where
  -- A node that is the same, with the same total.
  pub record SameTotal (ni ni' : NodeInfo) : Type 0 where
    pub same_node : ni'.node ≡ ni.node
    pub same_total : ni'.total ≡ ni.total

  unchanged : (ni : NodeInfo) → SameTotal ni ni
  unchanged ni = record { same_node = refl; same_total = refl }

  release-SameTotal :
      (ni : NodeInfo) (pod : Pod) (b : ℤ) → IsConsistent ni → SameTotal ni (release ni pod b).0
  unfolding release
  release-SameTotal ni pod b books =
      elim (Result-cases (difference_from_superset ni.requested (asked_details b pod))) [
        | inr (e, h) ↦ rw (h, release) (unchanged ni)
        | inl (d, h) ↦
            rw (h, release)
              (record {
                same_node = refl;
                same_total =
                    rw (books.apart b (release_there ni pod b (rw (h, release) refl))) refl;
              })
      ]

  delete_pod-SameTotal :
      (ni : NodeInfo) (pod : Pod) → IsConsistent ni → SameTotal ni (delete_pod ni pod).0
  unfolding delete_pod
  delete_pod-SameTotal ni pod books = elim (Option-cases (board_annotation pod)) [
    | inl e ↦ rw (e, delete_pod) (unchanged ni)
    | inr (s, e) ↦
        rw (e, delete_pod)
          (elim (Bool-cases (has_key Text_discrete pod.uid ni.pods)) [
            | inr h ↦ rw h (unchanged ni)
            | inl h ↦ rw h (elim (Option-cases (parse_int s)) [
              | inl p ↦ rw (p, delete_pod) (unchanged ni)
              | inr (b, p) ↦ rw (p, delete_pod) (release-SameTotal ni pod b books)
            ])
          ])
  ]

  reserve-SameTotal : (ni : NodeInfo) (pod : Pod) (b : ℤ) → SameTotal ni (reserve ni pod b).0
  unfolding reserve
  reserve-SameTotal ni pod b =
      elim (Result-cases (difference_from_superset ni.total (requested_with ni.requested b pod))) [
        | inr (e, h) ↦ rw (h, reserve) (record { same_node = refl; same_total = refl })
        | inl (d, h) ↦ rw (h, reserve) (record { same_node = refl; same_total = refl })
      ]

  reserve_anew-SameTotal :
      (ni : NodeInfo) (r : NodeInfo × Option NodeInfoError) (pod : Pod) (b : ℤ)
      → SameTotal ni r.0
      → SameTotal ni (reserve_anew r pod b).0
  unfolding reserve_anew
  reserve_anew-SameTotal ni (ni', some e) pod b s = s
  reserve_anew-SameTotal ni (ni', none) pod b s =
      let s' = reserve-SameTotal ni' pod b in
      record { same_node = s'.same_node ∙ s.same_node; same_total = s'.same_total ∙ s.same_total }

  pub add_pod-SameTotal :
      (ni : NodeInfo) (pod : Pod) → IsConsistent ni → SameTotal ni (add_pod ni pod).0
  unfolding add_pod
  add_pod-SameTotal ni pod books = elim (Option-cases (board_annotation pod)) [
    | inl e ↦ rw (e, add_pod) (unchanged ni)
    | inr (s, e) ↦
        rw (e, add_pod)
          (elim (Option-cases (parse_int s)) [
            | inl p ↦ rw (p, add_pod) (unchanged ni)
            | inr (b, p) ↦
                rw (p, add_pod)
                  (elim (Bool-cases (has_key Text_discrete pod.uid ni.pods)) [
                    | inl h ↦ rw h (
                        reserve_anew-SameTotal ni (delete_pod ni pod) pod b
                          (delete_pod-SameTotal ni pod books))
                    | inr h ↦ rw h (reserve-SameTotal ni pod b)
                  ])
          ])
  ]

  -- Consistent books over exactly what the capacity of the node says.
  pub record IsIntact (ni : NodeInfo) : Type 0 where
    pub books : IsConsistent ni
    pub computed : ni.total ≡ capacity_of ni.node

  SameTotal-IsIntact :
      (ni ni' : NodeInfo) → SameTotal ni ni' → IsConsistent ni' → IsIntact ni → IsIntact ni'
  SameTotal-IsIntact ni ni' s books i = record {
    books = books;
    computed = s.same_total ∙ (i.computed ∙ ap capacity_of (sym s.same_node));
  }

  pub delete_pod-IsIntact :
      (ni : NodeInfo) (pod : Pod) → IsIntact ni → IsIntact (delete_pod ni pod).0
  delete_pod-IsIntact ni pod i =
      SameTotal-IsIntact ni (delete_pod ni pod).0 (delete_pod-SameTotal ni pod i.books)
        (delete_pod-IsConsistent ni pod i.books) i

  pub add_pod-IsIntact :
      (ni : NodeInfo) (pod : Pod)
      → IsIntact ni
      → (add_pod ni pod).1 ≡ none
      → IsIntact (add_pod ni pod).0
  add_pod-IsIntact ni pod i accepted =
      SameTotal-IsIntact ni (add_pod ni pod).0 (add_pod-SameTotal ni pod i.books)
        (add_pod-IsConsistent ni pod i.books accepted) i

  add_pods-IsIntact :
      (ni : NodeInfo) (ps : List Pod) → IsIntact ni → Accepted ni ps → IsIntact (add_pods ni ps)
  unfolding add_pods
  add_pods-IsIntact ni [] i a = i
  add_pods-IsIntact ni (p ∷ ps) i a =
      add_pods-IsIntact (add_pod ni p).0 ps (add_pod-IsIntact ni p i a.0) a.1

  pub new_node_info-IsIntact :
      (node : Node) (ps : List Pod)
      → Accepted (bare_node node) ps
      → IsIntact (new_node_info node ps)
  unfolding new_node_info add_pods
  new_node_info-IsIntact node ps a =
      add_pods-IsIntact (bare_node node) ps
        (record { books = new_node_info-IsConsistent node [] tt; computed = refl }) a
