-- ===== src/Manager/Ledger.antt =====
-- What the scheduler promises of a node, without maps, annotations and errors: a ledger of leases,
-- and the life of a node's books as an implementation of it.
pub mod Simulation
use orin_device_system.Common.{
  ℤ, ℤ_discrete, [], Option, none, some, Bool, true, false, ◌&&◌, Text, Text_discrete, has_key,
  lookup, ite, if_pos, if_neg, ◌≡◌, ◌≢◌, refl, sym, ap, ◌∙◌, subst, arith, Option-cases, Bool-cases,
  inl, inr,
}
use mathlib.Core.Option
use mathlib.Core.Path.{fun_ext}
use mathlib.Core.Bool.{false≢true}
use orin_device_system.Common.Sets.{IntSets}
use orin_device_system.Topo.Views.{has_orin}
use orin_device_system.Pods.{Pod, build_request_orin_set}
use orin_device_system.Pods.Annotations.{bind_board}
use orin_device_system.NodeInfo.{NodeInfo}
use orin_device_system.NodeInfo.Release.{Reserved, Released}
use orin_device_system.NodeInfo.Ownership.{Owns, IsOwned}

-- Orins of one board.
pub record Lease : Type 0 where
  pub board_id : ℤ
  pub orins : ℤ → Bool

-- The boards of a node, their orins, and the lease of each pod.
pub record Ledger : Type 0 where
  pub boards : ℤ → Bool
  pub slots : ℤ → ℤ → Bool
  pub leases : Text → Option Lease

unfoldable pub covers : Option Lease → ℤ → ℤ → Bool
covers none j o = false
covers (some l) j o = ite (ℤ_discrete j l.board_id) (l.orins o) false

-- The pod `u` holds orin `o` of board `j`.
abbrev pub holds : Ledger → Text → ℤ → ℤ → Bool
holds l u j o = covers (l.leases u) j o

abbrev pub with_lease : Ledger → Text → Option Lease → Ledger
with_lease l u lease = record l { leases = λ v. ite (Text_discrete v u) lease (l.leases v) }

-- A lease that the ledger can give out: of orins that the board has and nobody holds.
pub record IsFree (l : Ledger) (lease : Lease) : Type 0 where
  pub board_there : l.boards lease.board_id ≡ true
  pub orins_there : (o : ℤ) → lease.orins o ≡ true → l.slots lease.board_id o ≡ true
  pub unheld : (u : Text) (o : ℤ) → lease.orins o ≡ true → holds l u lease.board_id o ≡ false

pub data LedgerStep (l : Ledger) : Ledger → Type 0 where
  lease_given :
      (u : Text) (lease : Lease)
      → l.leases u ≡ none
      → IsFree l lease
      → LedgerStep l (with_lease l u (some lease))
  lease_ended :
      (u : Text) (lease : Lease) → l.leases u ≡ some lease → LedgerStep l (with_lease l u none)

pub data LedgerReachable (start : Ledger) : Ledger → Type 0 where
  ledger_started : LedgerReachable start start
  ledger_changed :
      {l l' : Ledger} → LedgerReachable start l → LedgerStep l l' → LedgerReachable start l'

-- No orin is held twice, and what is held is there.
pub record IsExclusive (l : Ledger) : Type 0 where
  pub once : (u u' : Text) (j o : ℤ) → holds l u j o ≡ true → holds l u' j o ≡ true → u ≡ u'
  pub there : (u : Text) (j o : ℤ) → holds l u j o ≡ true → l.slots j o ≡ true

module _ ⦃S : IntSets⦄ where
  -- The lease that a recorded pod stands for.
  unfoldable pub lease_of : Pod → Option Lease
  lease_of pod = elim (bind_board pod) [
    | none ↦ none
    | some b ↦ some (record { board_id = b; orins = λ o. S.has o (build_request_orin_set pod) })
  ]

  unfoldable pub lease_in : Option Pod → Option Lease
  lease_in none = none
  lease_in (some pod) = lease_of pod

  -- The ledger that a node's books implement.
  abbrev pub ledger : NodeInfo → Ledger
  ledger ni = record {
    boards = λ b. has_key ℤ_discrete b ni.total;
    slots = has_orin ni.total;
    leases = λ u. lease_in (lookup Text_discrete u ni.pods);
  }

module _ ⦃S : IntSets⦄ where
  pub lease_of_bound :
      (pod : Pod) (b : ℤ)
      → bind_board pod ≡ some b
      → lease_of pod
        ≡ some (record { board_id = b; orins = λ o. S.has o (build_request_orin_set pod) })
  unfolding lease_of
  lease_of_bound pod b e = rw (e, lease_of) refl

  pub holds-Owns :
      (ni : NodeInfo) (u : Text) (j o : ℤ) → holds (ledger ni) u j o ≡ true → Owns ni u j o
  unfolding covers lease_in lease_of
  holds-Owns ni u j o h = elim (Option-cases (lookup Text_discrete u ni.pods)) [
    | inl e ↦ absurd (false≢true (rw (e, lease_in) at h))
    | inr (pod, e) ↦ elim (Option-cases (bind_board pod)) [
      | inl f ↦ absurd (false≢true (rw (f, lease_of) at (rw (e, lease_in) at h)))
      | inr (b, f) ↦ record {
        owner = pod;
        board_id = b;
        recorded = e;
        bound = f;
        asked = rw (f, lease_of) at (rw (e, lease_in) at h);
      }
    ]
  ]

  -- The lease of a pod that is bound to a board.
  abbrev pub lease : Pod → ℤ → Lease
  lease pod b = record { board_id = b; orins = λ o. S.has o (build_request_orin_set pod) }

  module _ (ni ni' : NodeInfo) (pod : Pod) (b : ℤ) where
    pub Reserved-ledger :
        bind_board pod ≡ some b
        → Reserved ni ni' pod b
        → ledger ni' ≡ with_lease (ledger ni) pod.uid (some (lease pod b))
    unfolding lease_in
    Reserved-ledger bound r = λ i. record {
      boards = λ j. has_key ℤ_discrete j (r.same_total i);
      slots = has_orin (r.same_total i);
      leases = fun_ext leased i;
    }
      where
        leased :
            (v : Text)
            → (ledger ni').leases v ≡ (with_lease (ledger ni) pod.uid (some (lease pod b))).leases v
        leased v = elim (Text_discrete v pod.uid) [
          | yes p ↦
              ap lease_in (r.recorded v ∙ if_pos (Text_discrete v pod.uid) p _ _)
              ∙ (lease_of_bound pod b bound ∙ sym (if_pos (Text_discrete v pod.uid) p _ _))
          | no p ↦
              ap lease_in (r.recorded v ∙ if_neg (Text_discrete v pod.uid) p _ _)
              ∙ sym (if_neg (Text_discrete v pod.uid) p _ _)
        ]

    pub Released-ledger : Released ni ni' pod b → ledger ni' ≡ with_lease (ledger ni) pod.uid none
    unfolding lease_in
    Released-ledger r = λ i. record {
      boards = λ j. has_key ℤ_discrete j (r.same_total i);
      slots = has_orin (r.same_total i);
      leases = fun_ext ended i;
    }
      where
        ended : (v : Text) → (ledger ni').leases v ≡ (with_lease (ledger ni) pod.uid none).leases v
        ended v = elim (Text_discrete v pod.uid) [
          | yes p ↦
              ap lease_in (r.forgotten v ∙ if_pos (Text_discrete v pod.uid) p _ _)
              ∙ sym (if_pos (Text_discrete v pod.uid) p _ _)
          | no p ↦
              ap lease_in (r.forgotten v ∙ if_neg (Text_discrete v pod.uid) p _ _)
              ∙ sym (if_neg (Text_discrete v pod.uid) p _ _)
        ]
