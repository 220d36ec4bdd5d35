-- ===== src/NodeInfo/Ownership.antt =====
-- Who has which orin of a node.
use orin_device_system.Common.{
  ℤ, some, true, Text, Text_discrete, lookup, if_pos, if_neg, ◌≡◌, ◌≢◌, ◌⊎◌, inl, inr, refl, sym,
  ap, ◌∙◌, subst, arith, Bool-cases,
}
use mathlib.Core.Option
use mathlib.Core.Bool.{false≢true}
use orin_device_system.Common.Sets.{IntSets}
use orin_device_system.Topo.Views.{has_orin}
use orin_device_system.Pods.{Pod}
use orin_device_system.Pods.Annotations.{bind_board}
use orin_device_system.NodeInfo.{NodeInfo}
use orin_device_system.NodeInfo.Invariant.{asks}
use orin_device_system.NodeInfo.Release.{Reserved, Released}
use orin_device_system.NodeInfo.UndoAdd.{IsNew}

module _ ⦃S : IntSets⦄ where
  -- The node has recorded `p` under `u`, and this pod asks for orin `o` of board `j`.
  pub record Owns (ni : NodeInfo) (u : Text) (j o : ℤ) : Type 0 where
    pub owner : Pod
    pub board_id : ℤ
    pub recorded : lookup Text_discrete u ni.pods ≡ some owner
    pub bound : bind_board owner ≡ some board_id
    pub asked : asks owner board_id j o ≡ true

  -- The requests are those of the recorded pods, and no two of these share an orin.
  pub record IsOwned (ni : NodeInfo) : Type 0 where
    pub owned : (j o : ℤ) → has_orin ni.requested j o ≡ true → (u : Text) × Owns ni u j o
    pub counted : (u : Text) (j o : ℤ) → Owns ni u j o → has_orin ni.requested j o ≡ true
    pub unshared : (u u' : Text) (j o : ℤ) → Owns ni u j o → Owns ni u' j o → u ≡ u'

  -- The owner is the pod that is recorded.
  Owns-recorded :
      (ni : NodeInfo) (u : Text) (j o : ℤ) (pod : Pod) (b : ℤ)
      → Owns ni u j o
      → lookup Text_discrete u ni.pods ≡ some pod
      → bind_board pod ≡ some b
      → asks pod b j o ≡ true
  Owns-recorded ni u j o pod b w e f =
      let same : w.owner ≡ pod = Option.some-injective w.owner pod (sym w.recorded ∙ e) in
      let same_board : w.board_id ≡ b =
        Option.some-injective w.board_id b (sym w.bound ∙ ap bind_board same ∙ f) in
      subst (λ i. asks pod i j o ≡ true) same_board
        (subst (λ p. asks p w.board_id j o ≡ true) same w.asked)

  Owns-moved :
      (ni ni' : NodeInfo) (u : Text) (j o : ℤ)
      → Owns ni u j o
      → lookup Text_discrete u ni'.pods ≡ lookup Text_discrete u ni.pods
      → Owns ni' u j o
  Owns-moved ni ni' u j o w e = record {
    owner = w.owner;
    board_id = w.board_id;
    recorded = e ∙ w.recorded;
    bound = w.bound;
    asked = w.asked;
  }

  module _ (ni ni' : NodeInfo) (pod : Pod) (b : ℤ) where
    module _ (fresh : IsNew ni pod b) (r : Reserved ni ni' pod b) where
      -- An owner is the new pod, or it was an owner before.
      Owns-added :
          (u : Text) (j o : ℤ)
          → Owns ni' u j o
          → ((u ≡ pod.uid) × (asks pod b j o ≡ true)) ⊎ Owns ni u j o
      Owns-added u j o w = elim (Text_discrete u pod.uid) [
        | yes p ↦ inl (
          p,
          Owns-recorded ni' u j o pod b w (r.recorded u ∙ if_pos (Text_discrete u pod.uid) p _ _)
              fresh.bound,
        )
        | no n ↦ inr (
            Owns-moved ni' ni u j o w (sym (r.recorded u ∙ if_neg (Text_discrete u pod.uid) n _ _)))
      ]

      Owns-kept : (u : Text) (j o : ℤ) → Owns ni u j o → Owns ni' u j o
      Owns-kept u j o w = Owns-moved ni ni' u j o w (
          r.recorded u
          ∙ if_neg (Text_discrete u pod.uid) (λ p. ground (arith, w.recorded, fresh.unknown, p)) _
              _)

      Owns-new : (j o : ℤ) → asks pod b j o ≡ true → Owns ni' pod.uid j o
      Owns-new j o e = record {
        owner = pod;
        board_id = b;
        recorded = r.recorded pod.uid ∙ if_pos (Text_discrete pod.uid pod.uid) refl _ _;
        bound = fresh.bound;
        asked = e;
      }

      -- What is new was not requested before.
      unclaimed_by : (u : Text) (j o : ℤ) → IsOwned ni → asks pod b j o ≡ true → ¬ Owns ni u j o
      unclaimed_by u j o own e w = false≢true (sym (fresh.unclaimed j o e) ∙ own.counted u j o w)

      -- Adding a pod that is new to the node keeps the orins apart.
      pub Reserved-IsOwned : IsOwned ni → IsOwned ni'
      Reserved-IsOwned own = record {
        owned = λ j o h. elim (Bool-cases (asks pod b j o)) [
          | inl e ↦ (pod.uid, Owns-new j o e)
          | inr e ↦
              let (u, w) = own.owned j o (ground (arith, r.taken j o, h, e)) in
              (u, Owns-kept u j o w)
        ];
        counted = λ u j o w. elim (Owns-added u j o w) [
          | inl (p, e) ↦ ground (arith, r.taken j o, e)
          | inr w' ↦ ground (arith, r.taken j o, own.counted u j o w')
        ];
        unshared = λ u u' j o w w'. elim (Owns-added u j o w) [
          | inl (p, e) ↦ elim (Owns-added u' j o w') [
            | inl (q, _) ↦ p ∙ sym q
            | inr v' ↦ absurd (unclaimed_by u' j o own e v')
          ]
          | inr v ↦ elim (Owns-added u' j o w') [
            | inl (q, e) ↦ absurd (unclaimed_by u j o own e v)
            | inr v' ↦ own.unshared u u' j o v v'
          ]
        ];
      }

    module _ (bound : bind_board pod ≡ some b)
        (there : lookup Text_discrete pod.uid ni.pods ≡ some pod) (r : Released ni ni' pod b) where
      Owns-left : (u : Text) (j o : ℤ) → Owns ni' u j o → (u ≢ pod.uid) × Owns ni u j o
      Owns-left u j o w =
          let other : u ≢ pod.uid = λ p.
            Option.none-ne-some w.owner
              (sym (r.forgotten u ∙ if_pos (Text_discrete u pod.uid) p _ _) ∙ w.recorded) in
          (
            other,
            Owns-moved ni' ni u j o w
                (sym (r.forgotten u ∙ if_neg (Text_discrete u pod.uid) other _ _)),
          )

      Owns-other : (u : Text) (j o : ℤ) → u ≢ pod.uid → Owns ni u j o → Owns ni' u j o
      Owns-other u j o other w =
          Owns-moved ni ni' u j o w (r.forgotten u ∙ if_neg (Text_discrete u pod.uid) other _ _)

      Owns-gone : (j o : ℤ) → asks pod b j o ≡ true → Owns ni pod.uid j o
      Owns-gone j o e = record {
        owner = pod;
        board_id = b;
        recorded = there;
        bound = bound;
        asked = e;
      }

      -- Deleting a recorded pod keeps the orins apart.
      pub Released-IsOwned : IsOwned ni → IsOwned ni'
      Released-IsOwned own = record {
        owned = λ j o h.
            let (u, w) = own.owned j o (ground (arith, r.freed j o, h)) in
            (
              u,
              Owns-other u j o
                  (λ p. not_asked j o h (
                    Owns-recorded ni u j o pod b w
                      (ap (λ v. lookup Text_discrete v ni.pods) p ∙ there) bound))
                  w,
            );
        counted = λ u j o w.
            let (other, v) = Owns-left u j o w in
            elim (Bool-cases (asks pod b j o)) [
              | inl e ↦ absurd (other (own.unshared u pod.uid j o v (Owns-gone j o e)))
              | inr e ↦ ground (arith, r.freed j o, own.counted u j o v, e)
            ];
        unshared =
            λ u u' j o w w'. own.unshared u u' j o (Owns-left u j o w).1 (Owns-left u' j o w').1;
      }
        where
          not_asked : (j o : ℤ) → has_orin ni'.requested j o ≡ true → asks pod b j o ≢ true
          not_asked j o h e = ground (arith, r.freed j o, h, e)
