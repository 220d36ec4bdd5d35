-- ===== src/Manager/Rounds.antt =====
-- The rounds of `Predicate`: what each node that the workers check leaves behind.
use orin_device_system.Common.{
  ℕ, zero, suc, ◌+◌, ◌≤◌, ℤ, ℤ_discrete, List, [], ◌∷◌, ◌++◌, none, some, Bool, true, false, ◌&&◌,
  ◌||◌, not, Text, Text_discrete, codes, insert, has_key, lookup-insert, ite, if_pos, if_neg,
  length, length-append, replicate, ◌≡◌, ◌≢◌, refl, arith, Option-cases, inl, inr, sym, ◌∙◌, subst,
}
use mathlib.Core.Bool.{false≢true}
use orin_device_system.Common.Sets.{IntSets, StringSets}
use orin_device_system.Allocator.{
  AllocatorResult, binpack_allocator, done, allocate, binpack_allocate, board_id_not_fount,
}
use orin_device_system.Allocator.BestFit.{Fits, IsSane, binpack_allocate-best}
use orin_device_system.NodeInfo.{NodeInfo}
use orin_device_system.Cache.{ScheduleCache, get_node}
use orin_device_system.Manager.{Filtered, file_node, check_node, check_nodes}

-- Whether a text is in a list.
unfoldable pub mem : Text → List Text → Bool
mem x [] = false
mem x (y ∷ ys) = ite (Text_discrete x y) true (mem x ys)

mem-snoc :
    (x y : Text) (ys : List Text) → mem x (ys ++ y ∷ []) ≡ ite (Text_discrete x y) true (mem x ys)
unfolding mem
mem-snoc x y [] = refl
mem-snoc x y (z ∷ ys) = ground (arith, mem-snoc x y ys)

pub mem-append : (x : Text) (ys zs : List Text) → mem x (ys ++ zs) ≡ (mem x ys || mem x zs)
unfolding mem
mem-append x [] zs = refl
mem-append x (y ∷ ys) zs = ground (arith, mem-append x ys zs)

pub mem-replicate : (x y : Text) (n : ℕ) → x ≢ y → mem x (replicate n y) ≡ false
unfolding mem
mem-replicate x y zero h = refl
mem-replicate x y (suc n) h = ground (arith, mem-replicate x y n h)

module _ ⦃S : IntSets⦄ ⦃T : StringSets⦄ (c : ScheduleCache) (request : S.IntSet) where
  -- The node is cached and one of its boards has the requested orins free.
  pub record CanHost (name : Text) : Type 0 where
    pub info : NodeInfo
    pub cached : get_node c name ≡ some info
    pub board_id : ℤ
    pub fits : Fits info.allocatable request board_id

  -- What the allocator says of a node.
  pub picks : Text → Bool
  picks name = elim (get_node c name) [
    | none ↦ false
    | some ni ↦
        ite (ℤ_discrete (binpack_allocate ni.allocatable request).board_id board_id_not_fount) false
          true
  ]

  -- The free orins of every cached node are a sane map.
  abbrev pub NodesSane : Type 0
  NodesSane = (name : Text) (ni : NodeInfo) → get_node c name ≡ some ni → IsSane ni.allocatable

  picks_cached :
      (name : Text) (ni : NodeInfo)
      → get_node c name ≡ some ni
      → picks name
        ≡ ite
            (ℤ_discrete (binpack_allocate ni.allocatable request).board_id board_id_not_fount)
            false
            true
  unfolding picks
  picks_cached name ni e = rw (e, picks) refl

  picks_missing : (name : Text) → get_node c name ≡ none → picks name ≡ false
  unfolding picks
  picks_missing name e = rw (e, picks) refl

  pub picks-CanHost : NodesSane → (name : Text) → picks name ≡ true → CanHost name
  picks-CanHost sane name h = elim (Option-cases (get_node c name)) [
    | inl e ↦ absurd (false≢true (sym (picks_missing name e) ∙ h))
    | inr (ni, e) ↦ elim (binpack_allocate-best ni.allocatable request (sane name ni e)) [
      | inl n ↦ absurd (
          false≢true (
            sym (
              if_pos
                (ℤ_discrete (binpack_allocate ni.allocatable request).board_id board_id_not_fount)
                n.sentinel false true)
            ∙ (sym (picks_cached name ni e) ∙ h)))
      | inr f ↦ record { info = ni; cached = e; board_id = _; fits = f.fits }
    ]
  ]

  pub CanHost-picks : NodesSane → (name : Text) → CanHost name → picks name ≡ true
  CanHost-picks sane name host =
      let ni = host.info in
      elim (binpack_allocate-best ni.allocatable request (sane name ni host.cached)) [
        | inl n ↦ absurd (n.none_fits host.board_id host.fits)
        | inr f ↦
            picks_cached name ni host.cached
            ∙ if_neg
                (ℤ_discrete (binpack_allocate ni.allocatable request).board_id board_id_not_fount)
                f.proper false true
      ]

  -- What one round leaves.
  record Filed (name : Text) (f f' : Filtered) : Type 0 where
    kept :
        (x : Text)
        → mem x f'.nodes ≡ ite (Text_discrete x name) (picks name || mem x f.nodes) (mem x f.nodes)
    refused :
        (x : Text)
        → has_key Text_discrete x f'.failed
          ≡ ite
              (Text_discrete x name)
              (not (picks name) || has_key Text_discrete x f.failed)
              (has_key Text_discrete x f.failed)
    counted : length f'.nodes ≤ length f.nodes + 1

  failing : Text → Text → Filtered → Filtered
  failing name reason f = record f { failed = insert Text_discrete name (name ++ reason) f.failed }

  passing : Text → Filtered → Filtered
  passing name f = record f { nodes = f.nodes ++ name ∷ [] }

  failing-Filed :
      (name reason : Text) (f : Filtered)
      → picks name ≡ false
      → Filed name f (failing name reason f)
  unfolding failing
  failing-Filed name reason f h = record {
    kept = λ x. ground (arith, h);
    refused = λ x. ground (arith, h, lookup-insert Text_discrete name x (name ++ reason) f.failed);
    counted = omega arith;
  }

  passing-Filed : (name : Text) (f : Filtered) → picks name ≡ true → Filed name f (passing name f)
  unfolding passing
  passing-Filed name f h = record {
    kept = λ x. ground (arith, h, mem-snoc x name f.nodes);
    refused = λ x. ground (arith, h);
    counted = omega (arith, length-append f.nodes (name ∷ []));
  }

  file_node-Filed :
      (name : Text) (f : Filtered) (res : AllocatorResult)
      → picks name ≡ ite (ℤ_discrete res.board_id board_id_not_fount) false true
      → Filed name f (file_node name res f)
  unfolding file_node failing passing
  file_node-Filed name f res h =
      let none_there = ℤ_discrete res.board_id board_id_not_fount in
      let refused = failing name (codes " has not enough resource") f in
      elim (ℤ_discrete res.board_id board_id_not_fount) [
        | yes p ↦ subst (Filed name f) (sym (if_pos none_there p refused (passing name f))) (
            failing-Filed name (codes " has not enough resource") f
              (h ∙ if_pos none_there p false true))
        | no p ↦
            subst (Filed name f) (sym (if_neg none_there p refused (passing name f)))
              (passing-Filed name f (h ∙ if_neg none_there p false true))
      ]

  check_node-Filed :
      (name : Text) (f : Filtered)
      → (f' : Filtered) × (check_node c (some binpack_allocator) request name f ≡ done f')
        × Filed name f f'
  unfolding check_node allocate failing
  check_node-Filed name f = elim (Option-cases (get_node c name)) [
    | inl e ↦ (
      failing name (codes " not found in node cache") f,
      rw (e, check_node) refl,
      failing-Filed name (codes " not found in node cache") f (picks_missing name e),
    )
    | inr (ni, e) ↦ (
      file_node name (binpack_allocate ni.allocatable request) f,
      rw (e, check_node) refl,
      file_node-Filed name f (binpack_allocate ni.allocatable request) (picks_cached name ni e),
    )
  ]

  -- What all rounds leave.
  pub record FiledAll (names : List Text) (f f' : Filtered) : Type 0 where
    pub kept : (x : Text) → mem x f'.nodes ≡ (mem x f.nodes || mem x names && picks x)
    pub refused :
        (x : Text)
        → has_key Text_discrete x f'.failed
          ≡ (has_key Text_discrete x f.failed || mem x names && not (picks x))
    pub counted : length f'.nodes ≤ length f.nodes + length names

  pub check_nodes-FiledAll :
      (names : List Text) (f : Filtered)
      → (f' : Filtered) × (check_nodes c (some binpack_allocator) request names f ≡ done f')
        × FiledAll names f f'
  unfolding check_nodes mem
  check_nodes-FiledAll [] f = (
    f,
    refl,
    record { kept = λ x. ground arith; refused = λ x. ground arith; counted = omega arith },
  )
  check_nodes-FiledAll (name ∷ names) f =
      let (f', e, one) = check_node-Filed name f in
      let (f'', e', rest) = check_nodes-FiledAll names f' in
      (
        f'',
        rw (e, check_nodes) e',
        record {
          kept = λ x. ground (arith, one.kept x, rest.kept x);
          refused = λ x. ground (arith, one.refused x, rest.refused x);
          counted = omega (arith, one.counted, rest.counted);
        },
      )
