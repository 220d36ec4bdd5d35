-- ===== src/Manager/Ledger/Simulation.antt =====
-- The life of a node's books (Manager.Sharing) is a life of its ledger.
use orin_device_system.Common.{
  ℤ, ℤ_discrete, [], none, some, true, false, Text, Text_discrete, has_key, lookup, if_pos, if_neg,
  ◌≡◌, ◌≢◌, sym, ap, ◌∙◌, subst, arith, Bool-cases, inl, inr, ◌⊎◌, ◌↔◌, Option-cases,
}
use mathlib.Core.Bool.{false≢true}
use orin_device_system.Common.Sets.{IntSets}
use orin_device_system.Topo.{board}
use orin_device_system.Topo.Views.{has_orin, has_key-insert}
use orin_device_system.Topo.Difference.{Covers}
use orin_device_system.Pods.{Pod, Node, add_pod_bind_annotation}
use orin_device_system.Pods.Annotations.{bind_board}
use orin_device_system.NodeInfo.{NodeInfo, request_on, add_pod, delete_pod, add_pods, new_node_info}
use orin_device_system.NodeInfo.Invariant.{IsConsistent, requested_with, has_orin-requested_with}
use orin_device_system.NodeInfo.Release.{
  add_pod-reserve, reserve-Covers, add_pod-Reserved, delete_pod-Released, delete_pod-apart,
}
use orin_device_system.NodeInfo.UndoAdd.{IsNew}
use orin_device_system.NodeInfo.Ownership.{Owns, IsOwned}
use orin_device_system.Manager.Choice.{allocate-IsNew}
use orin_device_system.Manager.Sharing.{
  NodeStep, pod_placed, pod_gone, NodeReachable, node_started, node_changed, NodeReachable-IsOwned,
}
use orin_device_system.Manager.Ledger.{
  Lease, Ledger, covers, holds, with_lease, IsFree, LedgerStep, lease_given, lease_ended,
  LedgerReachable, ledger_started, ledger_changed, IsExclusive, lease_in, ledger, lease,
  lease_of_bound, holds-Owns, Reserved-ledger, Released-ledger,
}

module _ (l : Ledger) (u : Text) where
  given-cases :
      (lease : Lease) (v : Text) (j o : ℤ)
      → holds (with_lease l u (some lease)) v j o ≡ true
      → ((v ≡ u) × (j ≡ lease.board_id) × (lease.orins o ≡ true)) ⊎ (holds l v j o ≡ true)
  unfolding covers
  given-cases lease v j o h = elim (Text_discrete v u) [
    | no other ↦ inr (
        ap (λ r. covers r j o) (sym (if_neg (Text_discrete v u) other (some lease) (l.leases v)))
        ∙ h)
    | yes same ↦
        let h' : covers (some lease) j o ≡ true =
          ap (λ r. covers r j o) (sym (if_pos (Text_discrete v u) same (some lease) (l.leases v)))
          ∙ h in
        (elim (ℤ_discrete j lease.board_id) [
          | yes b ↦
              inl (same, b, sym (if_pos (ℤ_discrete j lease.board_id) b (lease.orins o) false) ∙ h')
          | no b ↦
              absurd (
                false≢true
                  (sym (if_neg (ℤ_discrete j lease.board_id) b (lease.orins o) false) ∙ h'))
        ])
  ]

  ended-holds :
      (v : Text) (j o : ℤ) → holds (with_lease l u none) v j o ≡ true → holds l v j o ≡ true
  unfolding covers
  ended-holds v j o h = elim (Text_discrete v u) [
    | no other ↦
        ap (λ r. covers r j o) (sym (if_neg (Text_discrete v u) other none (l.leases v))) ∙ h
    | yes same ↦ absurd (
        false≢true
          (ap (λ r. covers r j o) (sym (if_pos (Text_discrete v u) same none (l.leases v))) ∙ h))
  ]

  -- A lease that is given out shares no orin with the others.
  unshared_lease :
      (lease : Lease) (v : Text) (j o : ℤ)
      → IsFree l lease
      → j ≡ lease.board_id
      → lease.orins o ≡ true
      → holds l v j o ≢ true
  unshared_lease lease v j o fits b asked h =
      false≢true (sym (fits.unheld v o asked) ∙ (ap (λ i. holds l v i o) (sym b) ∙ h))

LedgerStep-IsExclusive : {l l' : Ledger} → LedgerStep l l' → IsExclusive l → IsExclusive l'
LedgerStep-IsExclusive {l} (lease_given u lease free_of fits) x = record {
  once = λ v v' j o h h'. elim (given-cases l u lease v j o h) [
    | inl (p, b, asked) ↦ (elim (given-cases l u lease v' j o h') [
      | inl (p', _, _) ↦ p ∙ sym p'
      | inr old ↦ absurd (unshared_lease l u lease v' j o fits b asked old)
    ])
    | inr old ↦ (elim (given-cases l u lease v' j o h') [
      | inl (p', b, asked) ↦ absurd (unshared_lease l u lease v j o fits b asked old)
      | inr old' ↦ x.once v v' j o old old'
    ])
  ];
  there = λ v j o h. elim (given-cases l u lease v j o h) [
    | inl (p, b, asked) ↦ ap (λ i. l.slots i o) b ∙ fits.orins_there o asked
    | inr old ↦ x.there v j o old
  ];
}
LedgerStep-IsExclusive {l} (lease_ended u lease e) x = record {
  once = λ v v' j o h h'. x.once v v' j o (ended-holds l u v j o h) (ended-holds l u v' j o h');
  there = λ v j o h. x.there v j o (ended-holds l u v j o h);
}

-- Of a ledger without leases, every ledger that steps lead to is exclusive.
LedgerReachable-IsExclusive :
    {start l : Ledger} → IsExclusive start → LedgerReachable start l → IsExclusive l
LedgerReachable-IsExclusive x ledger_started = x
LedgerReachable-IsExclusive x (ledger_changed r s) =
    LedgerStep-IsExclusive s (LedgerReachable-IsExclusive x r)

module _ ⦃S : IntSets⦄ where
  accepted-Covers :
      (ni : NodeInfo) (pod : Pod) (b : ℤ)
      → IsConsistent ni
      → bind_board pod ≡ some b
      → has_key Text_discrete pod.uid ni.pods ≡ false
      → (add_pod ni pod).1 ≡ none
      → Covers ni.total (requested_with ni.requested b pod)
  accepted-Covers ni pod b books bound unknown accepted =
      elim (reserve-Covers ni pod b books.requested_distinct) [
        | inl (_, c) ↦ c
        | inr (failed, _, _, _, _) ↦
            absurd (failed (rw (add_pod-reserve ni pod b bound unknown) at accepted))
      ]

  placed-IsFree :
      (ni : NodeInfo) (pod : Pod) (b : ℤ)
      → IsConsistent ni
      → IsOwned ni
      → IsNew ni pod b
      → (add_pod ni pod).1 ≡ none
      → IsFree (ledger ni) (lease pod b)
  unfolding lookup
  placed-IsFree ni pod b books own fresh accepted =
      let c = accepted-Covers ni pod b books fresh.bound fresh.unknown accepted in
      record {
        board_there = c.boards b (
            ground
              (arith, has_key-insert b b (request_on b pod (board ni.requested b)) ni.requested));
        orins_there =
            λ o h. c.orins b o (ground (arith, has_orin-requested_with ni.requested b pod b o, h));
        unheld = λ u o h. elim (Bool-cases (holds (ledger ni) u b o)) [
          | inr unheld ↦ unheld
          | inl held ↦ absurd (
              false≢true (
                sym (fresh.unclaimed b o (ground (arith, h)))
                ∙ own.counted u b o (holds-Owns ni u b o held)))
        ];
      }

  unknown-unleased :
      (ni : NodeInfo) (pod : Pod)
      → has_key Text_discrete pod.uid ni.pods ≡ false
      → (ledger ni).leases pod.uid ≡ none
  unfolding lease_in
  unknown-unleased ni pod h = elim (Option-cases (lookup Text_discrete pod.uid ni.pods)) [
    | inl e ↦ ap lease_in e
    | inr (p, e) ↦ absurd (ground (arith, h, e))
  ]

  Owns-holds : (ni : NodeInfo) (u : Text) (j o : ℤ) → Owns ni u j o → holds (ledger ni) u j o ≡ true
  unfolding covers lease_in
  Owns-holds ni u j o w =
      ap (λ p. covers (lease_in p) j o) w.recorded
      ∙ (ap (λ l. covers l j o) (lease_of_bound w.owner w.board_id w.bound) ∙ w.asked)

  -- The orins that the books have free are those that nobody holds.
  books-free :
      (ni : NodeInfo) (j o : ℤ)
      → IsConsistent ni
      → IsOwned ni
      → (has_orin ni.allocatable j o ≡ true)
        ↔ ((has_orin ni.total j o ≡ true) × ((u : Text) → holds (ledger ni) u j o ≡ false))
  books-free ni j o books own = (
    λ h. (
      ground (arith, h, books.left j o),
      λ u. elim (Bool-cases (holds (ledger ni) u j o)) [
        | inr unheld ↦ unheld
        | inl held ↦ absurd (
            false≢true
              (ground (arith, h, books.left j o, own.counted u j o (holds-Owns ni u j o held))))
      ],
    ),
    λ (there, unheld). elim (Bool-cases (has_orin ni.requested j o)) [
      | inr left ↦ ground (arith, there, left, books.left j o)
      | inl taken ↦
          let (u, w) = own.owned j o taken in
          absurd (false≢true (sym (unheld u) ∙ Owns-holds ni u j o w))
    ],
  )

  pub NodeStep-LedgerStep :
      {ni ni' : NodeInfo}
      → NodeStep ni ni'
      → IsConsistent ni
      → IsOwned ni
      → LedgerStep (ledger ni) (ledger ni')
  unfolding lease_in
  NodeStep-LedgerStep {ni} (pod_placed pod a res sane int64 unknown chosen proper) books own =
      let bound = add_pod_bind_annotation pod res.board_id in
      let b = res.board_id in
      let (fresh, accepted) = allocate-IsNew ni pod a res books sane int64 unknown chosen proper in
      let r = add_pod-Reserved ni bound b fresh.bound fresh.unknown accepted in
      subst (LedgerStep (ledger ni))
        (sym (Reserved-ledger ni (add_pod ni bound).0 bound b fresh.bound r))
        (lease_given bound.uid (lease bound b) (unknown-unleased ni bound fresh.unknown)
          (placed-IsFree ni bound b books own fresh accepted))
  NodeStep-LedgerStep {ni} (pod_gone pod b bound there succeeded) books own =
      let known : has_key Text_discrete pod.uid ni.pods ≡ true = ground (arith, there) in
      let r =
        delete_pod-Released ni pod b bound known
          (delete_pod-apart ni pod b books bound known succeeded) succeeded in
      subst (LedgerStep (ledger ni)) (sym (Released-ledger ni (delete_pod ni pod).0 pod b r))
        (lease_ended pod.uid (lease pod b) (ap lease_in there ∙ lease_of_bound pod b bound))

  NodeReachable-steps :
      {node : Node} {ni : NodeInfo}
      → NodeReachable node ni
      → LedgerReachable (ledger (new_node_info node [])) (ledger ni)
  NodeReachable-steps node_started = ledger_started
  NodeReachable-steps (node_changed r s) =
      let (books, own) = NodeReachable-IsOwned r in
      ledger_changed (NodeReachable-steps r) (NodeStep-LedgerStep s books own)

  bare_node-IsExclusive : (node : Node) → IsExclusive (ledger (new_node_info node []))
  unfolding new_node_info add_pods lookup lease_in covers
  bare_node-IsExclusive node = record {
    once = λ u u' j o h h'. absurd (false≢true h);
    there = λ u j o h. absurd (false≢true h);
  }

  -- The books of a node implement the ledger of leases: after any placements of new pods on the
  -- boards that the allocators chose from sane maps, and deletions of recorded pods, they stand for
  -- a ledger that leases given out and ended lead to from the one of the node without pods; and the
  -- orins that they have free are exactly those of the node that no pod holds in this ledger, in
  -- which no two pods hold the same orin.
  pub NodeReachable-LedgerReachable :
      {node : Node} {ni : NodeInfo}
      → NodeReachable node ni
      → LedgerReachable (ledger (new_node_info node [])) (ledger ni)
        × IsExclusive (ledger ni)
        × ((j o : ℤ)
            → (has_orin ni.allocatable j o ≡ true)
              ↔ ((has_orin ni.total j o ≡ true) × ((u : Text) → holds (ledger ni) u j o ≡ false)))
  NodeReachable-LedgerReachable {node} {ni} r =
      let (books, own) = NodeReachable-IsOwned r in
      let steps = NodeReachable-steps r in
      (
        steps,
        LedgerReachable-IsExclusive (bare_node-IsExclusive node) steps,
        λ j o. books-free ni j o books own,
      )
