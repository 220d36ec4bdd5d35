-- ===== src/NodeInfo/Identity.antt =====
-- The name of a node and the keys of its pods (NodeInfo of pkg/scheduler/manager/cache.go).
use orin_device_system.Common.{
  ℤ, ℤ_discrete, List, [], ◌∷◌, Option, none, some, true, if◌then◌else◌, arith, Text, Text_discrete,
  insert, delete, has_key, lookup, lookup-insert, lookup-delete, Result-cases, ◌≡◌, refl, if_pos,
  if_neg, Option-cases, Bool-cases, inl, inr, sym, ◌∙◌, ap,
}
use mathlib.Core.Option
use mathlib.Core.Bool.{false≢true}
use orin_device_system.Topo.Views.{has_orin, has_key-add_board, has_orin-add_board}
use orin_device_system.Common.Sets.{IntSets}
use orin_device_system.Names.{parse_int}
use orin_device_system.Topo.{
  BoardDetails, new_board_details, new_orin_details, add_board, difference_from_superset, board,
}
use orin_device_system.Pods.{Pod, Node, TextMap, board_annotation}
use orin_device_system.NodeInfo.{
  NodeInfo, NodeInfoError, request_on, release, delete_pod, reserve, reserve_anew, add_pod,
  add_pods, add_capacities, new_node_info,
}

-- A map of pods under their UIDs.
pub record IsKeyed (pods : TextMap Pod) : Type 0 where
  pub own_uid : (uid : Text) (pod : Pod) → lookup Text_discrete uid pods ≡ some pod → pod.uid ≡ uid

pub insert-IsKeyed :
    (pod : Pod) (pods : TextMap Pod)
    → IsKeyed pods
    → IsKeyed (insert Text_discrete pod.uid pod pods)
insert-IsKeyed pod pods k = record {
  own_uid = λ uid p e. elim (Text_discrete uid pod.uid) [
    | yes same ↦
        let found =
          sym (if_pos (Text_discrete uid pod.uid) same (some pod) (lookup Text_discrete uid pods))
          ∙ (sym (lookup-insert Text_discrete pod.uid uid pod pods) ∙ e) in
        ap (λ (q : Pod). q.uid) (sym (Option.some-injective pod p found)) ∙ sym same
    | no other ↦ k.own_uid uid p (
        sym (if_neg (Text_discrete uid pod.uid) other (some pod) (lookup Text_discrete uid pods))
        ∙ (sym (lookup-insert Text_discrete pod.uid uid pod pods) ∙ e))
  ];
}

pub delete-IsKeyed :
    (uid : Text) (pods : TextMap Pod) → IsKeyed pods → IsKeyed (delete Text_discrete uid pods)
delete-IsKeyed uid pods k = record {
  own_uid = λ j p e. elim (Text_discrete j uid) [
    | yes same ↦ absurd (
        Option.none-ne-some p (
          sym (if_pos (Text_discrete j uid) same none (lookup Text_discrete j pods))
          ∙ (sym (lookup-delete Text_discrete uid j pods) ∙ e)))
    | no other ↦ k.own_uid j p (
        sym (if_neg (Text_discrete j uid) other none (lookup Text_discrete j pods))
        ∙ (sym (lookup-delete Text_discrete uid j pods) ∙ e))
  ];
}

pub no_pods-IsKeyed : IsKeyed []
unfolding lookup
no_pods-IsKeyed = record { own_uid = λ uid p e. absurd (Option.none-ne-some p e) }

module _ ⦃S : IntSets⦄ where
  -- The boards and orins of a node's capacity.
  abbrev pub capacity_of : Node → BoardDetails
  capacity_of node = add_capacities node.capacity new_board_details

  -- A node's name, its boards as its capacity says, with all the orins that its capacity says, and
  -- its pods under their UIDs. Once it has pods, Allocatable shares only boards that are there.
  pub record IsNamed (name : Text) (ni : NodeInfo) : Type 0 where
    pub named : ni.node.name ≡ name
    pub boards :
        (b : ℤ) → has_key ℤ_discrete b ni.total ≡ has_key ℤ_discrete b (capacity_of ni.node)
    pub orins : (b o : ℤ) → has_orin (capacity_of ni.node) b o ≡ true → has_orin ni.total b o ≡ true
    pub shared :
        (u : Text) (b : ℤ)
        → has_key Text_discrete u ni.pods ≡ true
        → ni.shares_total b ≡ true
        → has_key ℤ_discrete b ni.total ≡ true
    pub keyed : IsKeyed ni.pods

  -- The total after a release on board `b`.
  released_total : NodeInfo → ℤ → Pod → BoardDetails
  released_total ni b pod =
      if ni.shares_total b
      then add_board b (request_on b pod new_orin_details) ni.total
      else ni.total

  has_key-released_total :
      (ni : NodeInfo) (b : ℤ) (pod : Pod)
      → (ni.shares_total b ≡ true → has_key ℤ_discrete b ni.total ≡ true)
      → (j : ℤ) → has_key ℤ_discrete j (released_total ni b pod) ≡ has_key ℤ_discrete j ni.total
  unfolding released_total
  has_key-released_total ni b pod there j = elim (Bool-cases (ni.shares_total b)) [
    | inr h ↦ rw h refl
    | inl h ↦ rw h (
        ground (arith, there h, has_key-add_board b j (request_on b pod new_orin_details) ni.total))
  ]

  has_orin-released_total :
      (ni : NodeInfo) (b : ℤ) (pod : Pod) (j o : ℤ)
      → has_orin ni.total j o ≡ true
      → has_orin (released_total ni b pod) j o ≡ true
  unfolding released_total
  has_orin-released_total ni b pod j o there = elim (Bool-cases (ni.shares_total b)) [
    | inr h ↦ rw h there
    | inl h ↦ rw h (
        ground
          (arith, there, has_orin-add_board b j o (request_on b pod new_orin_details) ni.total))
  ]

  release-IsNamed :
      (name : Text) (ni : NodeInfo) (pod : Pod) (b : ℤ)
      → has_key Text_discrete pod.uid ni.pods ≡ true
      → IsNamed name ni
      → IsNamed name (release ni pod b).0
  unfolding release released_total
  release-IsNamed name ni pod b known n =
      let same = has_key-released_total ni b pod (n.shared pod.uid b known) in
      let asked = add_board b (request_on b pod new_orin_details) new_board_details in
      elim (Result-cases (difference_from_superset ni.requested asked)) [
        | inr (e, h) ↦ rw (h, release) n
        | inl (d, h) ↦
            rw (h, release)
              (record {
                named = n.named;
                boards = λ j. same j ∙ n.boards j;
                orins = λ j o h. has_orin-released_total ni b pod j o (n.orins j o h);
                shared = λ u j h s. same j ∙ n.shared pod.uid j known s;
                keyed = delete-IsKeyed pod.uid ni.pods n.keyed;
              })
      ]

  pub delete_pod-IsNamed :
      (name : Text) (ni : NodeInfo) (pod : Pod)
      → IsNamed name ni
      → IsNamed name (delete_pod ni pod).0
  unfolding delete_pod
  delete_pod-IsNamed name ni pod n = elim (Option-cases (board_annotation pod)) [
    | inl e ↦ rw (e, delete_pod) n
    | inr (s, e) ↦
        rw (e, delete_pod)
          (elim (Bool-cases (has_key Text_discrete pod.uid ni.pods)) [
            | inr h ↦ rw h n
            | inl h ↦ rw h (elim (Option-cases (parse_int s)) [
              | inl p ↦ rw (p, delete_pod) n
              | inr (b, p) ↦ rw (p, delete_pod) (release-IsNamed name ni pod b h n)
            ])
          ])
  ]

  reserve-IsNamed :
      (name : Text) (ni : NodeInfo) (pod : Pod) (b : ℤ)
      → IsNamed name ni
      → IsNamed name (reserve ni pod b).0
  unfolding reserve
  reserve-IsNamed name ni pod b n =
      let od = request_on b pod (board ni.requested b) in
      elim (Result-cases
        (difference_from_superset ni.total (insert ℤ_discrete b od ni.requested))) [
          | inr (e, h) ↦
              rw (h, reserve)
                (record {
                  named = n.named;
                  boards = n.boards;
                  orins = n.orins;
                  shared = n.shared;
                  keyed = n.keyed;
                })
          | inl (d, h) ↦
              rw (h, reserve)
                (record {
                  named = n.named;
                  boards = n.boards;
                  orins = n.orins;
                  shared = λ u j h s. ground (arith, s);
                  keyed = insert-IsKeyed pod ni.pods n.keyed;
                })
        ]

  reserve_anew-IsNamed :
      (name : Text) (r : NodeInfo × Option NodeInfoError) (pod : Pod) (b : ℤ)
      → IsNamed name r.0
      → IsNamed name (reserve_anew r pod b).0
  unfolding reserve_anew
  reserve_anew-IsNamed name (ni, some e) pod b n = n
  reserve_anew-IsNamed name (ni, none) pod b n = reserve-IsNamed name ni pod b n

  pub add_pod-IsNamed :
      (name : Text) (ni : NodeInfo) (pod : Pod) → IsNamed name ni → IsNamed name (add_pod ni pod).0
  unfolding add_pod
  add_pod-IsNamed name ni pod n = elim (Option-cases (board_annotation pod)) [
    | inl e ↦ rw (e, add_pod) n
    | inr (s, e) ↦
        rw (e, add_pod)
          (elim (Option-cases (parse_int s)) [
            | inl p ↦ rw (p, add_pod) n
            | inr (b, p) ↦
                rw (p, add_pod)
                  (elim (Bool-cases (has_key Text_discrete pod.uid ni.pods)) [
                    | inl h ↦ rw h (
                        reserve_anew-IsNamed name (delete_pod ni pod) pod b
                          (delete_pod-IsNamed name ni pod n))
                    | inr h ↦ rw h (reserve-IsNamed name ni pod b n)
                  ])
          ])
  ]

  add_pods-IsNamed :
      (name : Text) (ni : NodeInfo) (pods : List Pod)
      → IsNamed name ni
      → IsNamed name (add_pods ni pods)
  unfolding add_pods
  add_pods-IsNamed name ni [] n = n
  add_pods-IsNamed name ni (p ∷ ps) n =
      add_pods-IsNamed name (add_pod ni p).0 ps (add_pod-IsNamed name ni p n)

  pub new_node_info-IsNamed :
      (node : Node) (pods : List Pod) → IsNamed node.name (new_node_info node pods)
  unfolding new_node_info lookup
  new_node_info-IsNamed node pods = add_pods-IsNamed node.name _ pods (record {
    named = refl;
    boards = λ b. refl;
    orins = λ b o h. h;
    shared = λ u b h s. absurd (false≢true h);
    keyed = no_pods-IsKeyed;
  })
