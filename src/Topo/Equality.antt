-- ===== src/Topo/Equality.antt =====
-- `BoardDetails.Equal`: what two topologies that it calls equal have in common.
use orin_device_system.Common.{
  ℤ, ℤ_discrete, [], ◌∷◌, true, lookup, has_key, Distinct, ◌≡◌, ◌↔◌, refl, arith,
}
use orin_device_system.Common.Sets.{IntSets}
use orin_device_system.Topo.{BoardDetails, board, board_set, orin_set, equal_orins, equal}
use orin_device_system.Topo.Views.{has_orin, has-board_set, has-orin_set}

-- The same boards, with the same orins on each.
pub record SameTopology (src dst : BoardDetails) : Type 0 where
  pub boards : (b : ℤ) → has_key ℤ_discrete b src ≡ has_key ℤ_discrete b dst
  pub orins : (b o : ℤ) → has_orin src b o ≡ has_orin dst b o

module _ ⦃S : IntSets⦄ where
  equal_orins-same :
      (src dst : BoardDetails)
      → Distinct ℤ_discrete src
      → equal_orins src dst ≡ true
      → (b o : ℤ) → has_key ℤ_discrete b src ≡ true
      → has_orin src b o ≡ has_orin dst b o
  unfolding equal_orins lookup
  equal_orins-same [] dst n e b o h = ground arith
  equal_orins-same ((k, os) ∷ src) dst n e b o h = ground (
    arith,
    equal_orins-same src dst n.1 (ground arith) b o,
    (S.equal_iff (orin_set os) (orin_set (board dst k))).0 (ground arith) o,
    has-orin_set os o,
    has-orin_set (board dst k) o,
  )

  same-equal_orins :
      (src dst : BoardDetails)
      → Distinct ℤ_discrete src
      → ((b o : ℤ) → has_key ℤ_discrete b src ≡ true → has_orin src b o ≡ has_orin dst b o)
      → equal_orins src dst ≡ true
  unfolding equal_orins lookup
  same-equal_orins [] dst n h = refl
  same-equal_orins ((k, os) ∷ src) dst n h = ground (
    arith,
    same-equal_orins src dst n.1 later,
    (S.equal_iff (orin_set os) (orin_set (board dst k))).1 here,
  )
    where
      here : (o : ℤ) → S.has o (orin_set os) ≡ S.has o (orin_set (board dst k))
      here o = ground (arith, h k o, has-orin_set os o, has-orin_set (board dst k) o)

      later : (b o : ℤ) → has_key ℤ_discrete b src ≡ true → has_orin src b o ≡ has_orin dst b o
      later b o e = ground (arith, h b o, n.0)

  -- If the keys of `src` are distinct, `Equal` answers true exactly if both have the same boards
  -- with the same orins on each.
  pub equal-SameTopology_iff :
      (src dst : BoardDetails)
      → Distinct ℤ_discrete src
      → (equal src dst ≡ true) ↔ SameTopology src dst
  unfolding equal lookup
  equal-SameTopology_iff src dst n = (same, equals)
    where
      boards_same :
          equal src dst ≡ true → (b : ℤ) → has_key ℤ_discrete b src ≡ has_key ℤ_discrete b dst
      boards_same e b = ground (
        arith,
        (S.equal_iff (board_set src) (board_set dst)).0 (ground arith) b,
        has-board_set src b,
        has-board_set dst b,
      )

      same : equal src dst ≡ true → SameTopology src dst
      same e = record {
        boards = boards_same e;
        orins =
            λ b o. ground (arith, equal_orins-same src dst n (ground arith) b o, boards_same e b);
      }

      equals : SameTopology src dst → equal src dst ≡ true
      equals t = ground (
        arith,
        (S.equal_iff (board_set src) (board_set dst)).1
            (λ b. ground (arith, t.boards b, has-board_set src b, has-board_set dst b)),
        same-equal_orins src dst n (λ b o h. t.orins b o),
      )
