-- ===== src/Topo/Forget.antt =====
-- `BoardDetails` of pkg/scheduler/manager/topo/mazuinfo.go up to the order of Go's maps, as a
-- quotient, and `DifferenceFromSuperset` on it.
use orin_device_system.Common.{
  ℤ, ℤ_discrete, Option, none, some, true, false, ◌&&◌, not, has_key, Distinct, Result, ok, err,
  is_ok, ◌≡◌, ◌⊎◌, inl, inr, refl, sym, ap, ◌∙◌, arith,
}
use mathlib.Core.Path.{fun_ext}
use mathlib.Core.HLevel.{Π_set}
use mathlib.Core.Bool.{false≢true}
use mathlib.Core.Quot
use mathlib.Core.Quot.{Quot, Quot-set}
use mathlib.Core.Option
use orin_device_system.Common.Sets.{IntSets}
use orin_device_system.Topo.{BoardDetails, DetailsError, difference_from_superset}
use orin_device_system.Topo.Views.{has_orin}
use orin_device_system.Topo.Difference.{Covers, difference-has_orin, difference-Covers_iff}
use orin_device_system.Topo.Distinctness.{difference-Distinct}
use orin_device_system.Topo.Equality.{SameTopology}

-- A Go map has no key twice.
abbrev pub GoMap : Type 0
GoMap = (d : BoardDetails) × Distinct ℤ_discrete d

abbrev pub SameMap : GoMap → GoMap → Type 0
SameMap d d' = SameTopology d.0 d'.0

abbrev pub Topology : Type 0
Topology = Quot SameMap

module _ ⦃S : IntSets⦄ where
  -- What `DifferenceFromSuperset` of two maps leaves, and when it fails.
  pub record Left (src sub d : GoMap) : Type 0 where
    pub covered : Covers src.0 sub.0
    pub boards : (b : ℤ) → has_key ℤ_discrete b d.0 ≡ has_key ℤ_discrete b src.0
    pub orins : (b o : ℤ) → has_orin d.0 b o ≡ (has_orin src.0 b o && not (has_orin sub.0 b o))

  unfoldable pub result_class :
      (src sub : GoMap) (r : Result DetailsError BoardDetails)
      → difference_from_superset src.0 sub.0 ≡ r
      → Option Topology
  result_class src sub (ok d) e = some (Quot.mk (d, difference-Distinct src.0 sub.0 {d = d} e))
  result_class src sub (err x) e = none

  -- DifferenceFromSuperset, with its errors forgotten
  unfoldable pub subtract_maps : GoMap → GoMap → Option Topology
  subtract_maps src sub = result_class src sub (difference_from_superset src.0 sub.0) refl

  result_class-cases :
      (src sub : GoMap) (r : Result DetailsError BoardDetails)
      (e : difference_from_superset src.0 sub.0 ≡ r)
      → ((d : GoMap) × (result_class src sub r e ≡ some (Quot.mk d)) × Left src sub d)
        ⊎ ((result_class src sub r e ≡ none) × ¬ Covers src.0 sub.0)
  unfolding result_class
  result_class-cases src sub (ok d) e =
      let (boards, orins) = difference-has_orin src.0 sub.0 {d = d} sub.1 e in
      inl (
        (d, difference-Distinct src.0 sub.0 {d = d} e),
        refl,
        record {
          covered = (difference-Covers_iff src.0 sub.0 sub.1).0 (ap is_ok e);
          boards = boards;
          orins = orins;
        },
      )
  result_class-cases src sub (err x) e =
      inr (refl, λ c. false≢true (sym (ap is_ok e) ∙ (difference-Covers_iff src.0 sub.0 sub.1).1 c))

  subtract_maps-cases :
      (src sub : GoMap)
      → ((d : GoMap) × (subtract_maps src sub ≡ some (Quot.mk d)) × Left src sub d)
        ⊎ ((subtract_maps src sub ≡ none) × ¬ Covers src.0 sub.0)
  unfolding subtract_maps
  subtract_maps-cases src sub =
      result_class-cases src sub (difference_from_superset src.0 sub.0) refl

  Covers-moved :
      (src src' sub sub' : GoMap)
      → SameMap src src'
      → SameMap sub sub'
      → Covers src.0 sub.0
      → Covers src'.0 sub'.0
  Covers-moved src src' sub sub' s t c = record {
    boards = λ b e. ground (arith, c.boards b, s.boards b, t.boards b);
    orins = λ b o e. ground (arith, c.orins b o, s.orins b o, t.orins b o);
  }

  SameMap-sym : (d d' : GoMap) → SameMap d d' → SameMap d' d
  SameMap-sym d d' s = record { boards = λ b. sym (s.boards b); orins = λ b o. sym (s.orins b o) }

  pub subtract_maps-same :
      (src src' sub sub' : GoMap)
      → SameMap src src'
      → SameMap sub sub'
      → subtract_maps src sub ≡ subtract_maps src' sub'
  subtract_maps-same src src' sub sub' s t = elim (subtract_maps-cases src sub) [
    | inl (d, e, l) ↦ elim (subtract_maps-cases src' sub') [
      | inl (d', e', l') ↦
          e
          ∙ (ap some (
                Quot.sound (record {
                  boards = λ b. l.boards b ∙ s.boards b ∙ sym (l'.boards b);
                  orins =
                      λ b o. ground (arith, l.orins b o, l'.orins b o, s.orins b o, t.orins b o);
                }))
              ∙ sym e')
      | inr (e', uncovered) ↦ absurd (uncovered (Covers-moved src src' sub sub' s t l.covered))
    ]
    | inr (e, uncovered) ↦ elim (subtract_maps-cases src' sub') [
      | inl (d', e', l') ↦ absurd (
          uncovered (
            Covers-moved src' src sub' sub (SameMap-sym src src' s) (SameMap-sym sub sub' t)
              l'.covered))
      | inr (e', _) ↦ e ∙ sym e'
    ]
  ]

  unfoldable pub subtract_from : GoMap → Topology → Option Topology
  subtract_from src = Quot.lift (Option.is_set Quot-set) (subtract_maps src) (λ sub sub' t.
      subtract_maps-same src src sub sub' (record { boards = λ b. refl; orins = λ b o. refl }) t)

  -- `DifferenceFromSuperset` of topologies.
  unfoldable pub subtract : Topology → Topology → Option Topology
  unfolding subtract_from
  subtract = Quot.lift (Π_set (λ t. Option.is_set Quot-set)) subtract_from (λ src src' s. fun_ext (
      Quot.ind (λ t. Option.is_set Quot-set _ _)
        (λ sub.
          subtract_maps-same src src' sub sub s
            (record { boards = λ b. refl; orins = λ b o. refl }))))

  -- first `a`, then `b`
  unfoldable pub subtract_both : Topology → Topology → Topology → Option Topology
  subtract_both t a b = elim (subtract t a) [ none ↦ none | some u ↦ subtract u b ]

  -- `a` and `b` are both there, and share no orin.
  record Disjoint (t a b : GoMap) : Type 0 where
    first : Covers t.0 a.0
    second : Covers t.0 b.0
    apart : (j o : ℤ) → has_orin a.0 j o ≡ true → has_orin b.0 j o ≡ false

  -- What is left without both.
  record LeftOfBoth (t a b d : GoMap) : Type 0 where
    parts : Disjoint t a b
    boards : (j : ℤ) → has_key ℤ_discrete j d.0 ≡ has_key ℤ_discrete j t.0
    orins :
        (j o : ℤ)
        → has_orin d.0 j o ≡ (has_orin t.0 j o && not (has_orin a.0 j o) && not (has_orin b.0 j o))

  second_step :
      (t a b u : GoMap)
      → Left t a u
      → ((d : GoMap) × (subtract_maps u b ≡ some (Quot.mk d)) × LeftOfBoth t a b d)
        ⊎ ((subtract_maps u b ≡ none) × ¬ Disjoint t a b)
  second_step t a b u l = elim (subtract_maps-cases u b) [
    | inl (d, e, m) ↦ inl (
      d,
      e,
      record {
        parts = record {
          first = l.covered;
          second = record {
            boards = λ j h. ground (arith, m.covered.boards j, l.boards j);
            orins = λ j o h. ground (arith, m.covered.orins j o, l.orins j o);
          };
          apart = λ j o h. ground (arith, m.covered.orins j o, l.orins j o);
        };
        boards = λ j. m.boards j ∙ l.boards j;
        orins = λ j o. ground (arith, m.orins j o, l.orins j o);
      },
    )
    | inr (e, uncovered) ↦ inr (
      e,
      λ p. uncovered (record {
        boards = λ j h. ground (arith, p.second.boards j, l.boards j);
        orins = λ j o h. ground (arith, p.second.orins j o, p.apart j o, l.orins j o);
      }),
    )
  ]

  subtract_both-cases :
      (t a b : GoMap)
      → let r = subtract_both (Quot.mk t) (Quot.mk a) (Quot.mk b) in
        ((d : GoMap) × (r ≡ some (Quot.mk d)) × LeftOfBoth t a b d)
        ⊎ ((r ≡ none) × ¬ Disjoint t a b)
  unfolding subtract_both subtract subtract_from
  subtract_both-cases t a b = elim (subtract_maps-cases t a) [
    | inl (u, e, l) ↦ rw (e, subtract_both) (second_step t a b u l)
    | inr (e, uncovered) ↦ inr (rw (e, subtract_both) refl, λ p. uncovered p.first)
  ]

  Disjoint-sym : (t a b : GoMap) → Disjoint t a b → Disjoint t b a
  Disjoint-sym t a b p = record {
    first = p.second;
    second = p.first;
    apart = λ j o h. ground (arith, p.apart j o);
  }

  -- On topologies, which are Go's maps up to which boards they have and which orins on each:
  -- `DifferenceFromSuperset` with one topology and then with another
  -- gives the same topology as in the other order, and fails in both orders or in none.
  pub subtract_both_comm : (t a b : Topology) → subtract_both t a b ≡ subtract_both t b a
  subtract_both_comm =
      Quot.ind (λ t. hlevel (Quot-set))
        (λ t.
          Quot.ind (λ a. hlevel (Quot-set))
            (λ a. Quot.ind (λ b. hlevel (Quot-set)) (λ b. maps_comm t a b)))
    where
      maps_comm :
          (t a b : GoMap)
          → subtract_both (Quot.mk t) (Quot.mk a) (Quot.mk b)
            ≡ subtract_both (Quot.mk t) (Quot.mk b) (Quot.mk a)
      maps_comm t a b = elim (subtract_both-cases t a b) [
        | inl (d, e, l) ↦ elim (subtract_both-cases t b a) [
          | inl (d', e', l') ↦
              e
              ∙ (ap some (
                    Quot.sound (record {
                      boards = λ j. l.boards j ∙ sym (l'.boards j);
                      orins = λ j o. ground (arith, l.orins j o, l'.orins j o);
                    }))
                  ∙ sym e')
          | inr (e', apart) ↦ absurd (apart (Disjoint-sym t a b l.parts))
        ]
        | inr (e, apart) ↦ elim (subtract_both-cases t b a) [
          | inl (d', e', l') ↦ absurd (apart (Disjoint-sym t b a l'.parts))
          | inr (e', _) ↦ e ∙ sym e'
        ]
      ]
