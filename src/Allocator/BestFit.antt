-- ===== src/Allocator/BestFit.antt =====
-- The binpack policy: which board `Allocate` chooses, and when it finds none.
use orin_device_system.Common.{
  ℕ, ◌≤◌, ◌<◌, ℤ, ℤ_discrete, pos, negsuc, ◌-ℤ◌, [], ◌∷◌, true, false, lookup, has_key, Distinct,
  ◌≡◌, ◌≢◌, ◌⊎◌, inl, inr, refl, none, length, ◌+◌, ◌∙◌, if_pos, if_neg, arith, ltb, Bool-cases,
}
use orin_device_system.Common.Sets.{IntSets}
use orin_device_system.Topo.{BoardDetails, OrinDetails, board, orin_set}
use orin_device_system.Topo.Views.{has_orin, has-orin_set}
use orin_device_system.Allocator.{
  AllocatorResult, best_fit, binpack_allocate, node_score, board_id_not_fount, max_int,
}

module _ ⦃S : IntSets⦄ where
  -- The board is there and has every requested orin.
  pub record Fits (d : BoardDetails) (request : S.IntSet) (b : ℤ) : Type 0 where
    pub there : has_key ℤ_discrete b d ≡ true
    pub enough : (o : ℤ) → S.has o request ≡ true → has_orin d b o ≡ true

  -- The number of orins that are free on a board.
  abbrev pub free : BoardDetails → ℤ → ℕ
  free d b = S.len (orin_set (board d b))

  -- Every key of the map is a board ID other than -1, with fewer than MaxInt orins.
  pub record IsSane (d : BoardDetails) : Type 0 where
    pub distinct : Distinct ℤ_discrete d
    pub no_sentinel : has_key ℤ_discrete board_id_not_fount d ≡ false
    pub small : (b : ℤ) → free d b < max_int

  -- What the loop leaves, over the entries `d` and from the best score `sc` before them.
  Best : BoardDetails → S.IntSet → ℤ → ℕ → ℤ → Type 0
  Best d request id sc r =
      ((r ≡ id) × ((b : ℤ) → Fits d request b → sc ≤ free d b))
      ⊎ (Fits d request r × (free d r < sc) × ((b : ℤ) → Fits d request b → free d r ≤ free d b))

  module _ (k : ℤ) (od : OrinDetails) (d : BoardDetails) (request : S.IntSet) where
    -- The first entry of the map.
    Fits-here : S.is_superset (orin_set od) request ≡ true → Fits ((k, od) ∷ d) request k
    unfolding lookup
    Fits-here h = record {
      there = ground arith;
      enough = λ o e.
          ground (arith, (S.is_superset_iff (orin_set od) request).0 h o e, has-orin_set od o);
    }

    here-Fits :
        (b : ℤ) → b ≡ k → Fits ((k, od) ∷ d) request b → S.is_superset (orin_set od) request ≡ true
    unfolding lookup
    here-Fits b e f =
        (S.is_superset_iff (orin_set od) request).1
          (λ o h. ground (arith, f.enough o h, has-orin_set od o))

    Fits-later : (b : ℤ) → b ≢ k → Fits d request b → Fits ((k, od) ∷ d) request b
    unfolding lookup
    Fits-later b n f = record {
      there = ground (arith, f.there);
      enough = λ o h. ground (arith, f.enough o h);
    }

    later-Fits : (b : ℤ) → b ≢ k → Fits ((k, od) ∷ d) request b → Fits d request b
    unfolding lookup
    later-Fits b n f = record {
      there = ground (arith, f.there);
      enough = λ o h. ground (arith, f.enough o h);
    }

    free-here : (b : ℤ) → b ≡ k → free ((k, od) ∷ d) b ≡ S.len (orin_set od)
    unfolding lookup
    free-here b e = ground arith

    free-later : (b : ℤ) → b ≢ k → free ((k, od) ∷ d) b ≡ free d b
    unfolding lookup
    free-later b n = ground arith

    Fits-ne : (b : ℤ) → lookup ℤ_discrete k d ≡ none → Fits d request b → b ≢ k
    Fits-ne b e f = λ same. ground (arith, f.there)

    Fits-cases :
        (b : ℤ)
        → Fits ((k, od) ∷ d) request b
        → ((S.is_superset (orin_set od) request ≡ true)
            × (free ((k, od) ∷ d) b ≡ S.len (orin_set od)))
          ⊎ (Fits d request b × (free ((k, od) ∷ d) b ≡ free d b))
    Fits-cases b f = elim (ℤ_discrete b k) [
      | yes p ↦ inl (here-Fits b p f, free-here b p)
      | no p ↦ inr (later-Fits b p f, free-later b p)
    ]

    -- If the loop goes on from a score of at most that of the first board, where that board fits,
    -- then what is least for the rest is least for all.
    least-cons :
        (n : ℕ)
        → (S.is_superset (orin_set od) request ≡ true → n ≤ S.len (orin_set od))
        → ((b : ℤ) → Fits d request b → n ≤ free d b)
        → (b : ℤ) → Fits ((k, od) ∷ d) request b
        → n ≤ free ((k, od) ∷ d) b
    least-cons n first rest b f = elim (Fits-cases b f) [
      | inl (h, e) ↦ omega (arith, first h, e)
      | inr (g, e) ↦ omega (arith, rest b g, e)
    ]

    module _ (fresh : lookup ℤ_discrete k d ≡ none) (id r : ℤ) (sc : ℕ) where
      found-later :
          (n : ℕ)
          → n ≤ sc
          → (S.is_superset (orin_set od) request ≡ true → n ≤ S.len (orin_set od))
          → Fits d request r
          → free d r < n
          → ((b : ℤ) → Fits d request b → free d r ≤ free d b)
          → Best ((k, od) ∷ d) request id sc r
      unfolding Best
      found-later n le first f l least =
          let other = Fits-ne r fresh f in
          let e = free-later r other in
          inr (
            Fits-later r other f,
            omega (arith, e, l),
            λ b g. omega (arith, e, least-cons (free d r) (λ h. omega (arith, first h)) least b g),
          )

      Best-taken :
          S.is_superset (orin_set od) request ≡ true
          → S.len (orin_set od) < sc
          → Best d request k (S.len (orin_set od)) r
          → Best ((k, od) ∷ d) request id sc r
      unfolding Best
      Best-taken h lt (inl (e, least)) = inr (
        rw e (Fits-here h),
        omega (arith, free-here r e),
        λ b g.
            omega
              (arith, free-here r e, least-cons (S.len (orin_set od)) (λ _. omega arith) least b g),
      )
      Best-taken h lt (inr (f, l, least)) =
          found-later (S.len (orin_set od)) (omega arith) (λ _. omega arith) f l least

      Best-passed :
          (S.is_superset (orin_set od) request ≡ true → sc ≤ S.len (orin_set od))
          → Best d request id sc r
          → Best ((k, od) ∷ d) request id sc r
      unfolding Best
      Best-passed h (inl (e, least)) = inl (e, least-cons sc h least)
      Best-passed h (inr (f, l, least)) = found-later sc (omega arith) h f l least

  best_fit-Best :
      (d : BoardDetails) (request : S.IntSet) (id : ℤ) (sc : ℕ)
      → Distinct ℤ_discrete d
      → Best d request id sc (best_fit d request id sc)
  unfolding Best best_fit lookup
  best_fit-Best [] request id sc n = inl (refl, λ b f. ground (arith, f.there))
  best_fit-Best ((k, od) ∷ d) request id sc n =
      let size = S.len (orin_set od) in
      elim (Bool-cases (S.is_superset (orin_set od) request)) [
        | inl h ↦ elim (Bool-cases (ltb size sc)) [
          | inl lt ↦
              rw (h, lt)
                (Best-taken k od d request n.0 id (best_fit d request k size) sc h (ground arith)
                  (best_fit-Best d request k size n.1))
          | inr ge ↦
              rw (h, ge)
                (Best-passed k od d request n.0 id (best_fit d request id sc) sc (λ _. ground arith)
                  (best_fit-Best d request id sc n.1))
        ]
        | inr h ↦ rw h (
            Best-passed k od d request n.0 id (best_fit d request id sc) sc (λ e. ground arith)
              (best_fit-Best d request id sc n.1))
      ]

-- The number of entries on all boards.
pub total_orins : BoardDetails → ℕ
total_orins [] = 0
total_orins ((_, od) ∷ d) = length od + total_orins d

sub_twice : (s : ℤ) (a b : ℕ) → s -ℤ pos a -ℤ pos b ≡ s -ℤ pos (a + b)
unfolding ◌-ℤ◌
sub_twice (pos n) a b = ground arith
sub_twice (negsuc n) a b = ground arith

sub_zero : (s : ℤ) → s ≡ s -ℤ pos 0
unfolding ◌-ℤ◌
sub_zero (pos n) = ground arith
sub_zero (negsuc n) = ground arith

node_score-total_orins : (d : BoardDetails) (s : ℤ) → node_score d s ≡ s -ℤ pos (total_orins d)
unfolding node_score total_orins
node_score-total_orins [] s = sub_zero s
node_score-total_orins ((k, od) ∷ d) s =
    node_score-total_orins d (s -ℤ pos (length od)) ∙ sub_twice s (length od) (total_orins d)

module _ ⦃S : IntSets⦄ (d : BoardDetails) (request : S.IntSet) where
  -- No board has the requested orins: the answer is -1, with score 0.
  pub record NotFound (r : AllocatorResult) : Type 0 where
    pub sentinel : r.board_id ≡ board_id_not_fount
    pub worst : r.score ≡ pos 0
    pub none_fits : (b : ℤ) → ¬ Fits d request b

  -- The answer is a board that fits, no board that fits has fewer free orins, and the score falls
  -- with the number of free orins on the node.
  pub record Found (r : AllocatorResult) : Type 0 where
    pub proper : r.board_id ≢ board_id_not_fount
    pub fits : Fits d request r.board_id
    pub tightest : (b : ℤ) → Fits d request b → free d r.board_id ≤ free d b
    pub scored : r.score ≡ pos 100 -ℤ pos (total_orins d)

  -- On a map with distinct keys other than -1 and boards of fewer than MaxInt orins, in whatever
  -- order it is visited: either no board fits, and the answer is -1 with score 0; or the answer is
  -- a board that fits, no board that fits has fewer free orins, and the score is 100 minus the
  -- number of free orins.
  pub binpack_allocate-best :
      IsSane d → NotFound (binpack_allocate d request) ⊎ Found (binpack_allocate d request)
  unfolding binpack_allocate Best
  binpack_allocate-best h =
      let r = best_fit d request board_id_not_fount max_int in
      elim (best_fit-Best d request board_id_not_fount max_int h.distinct) [
        | inl (e, least) ↦ inl (record {
          sentinel = e;
          worst = if_pos (ℤ_discrete r board_id_not_fount) e _ _;
          none_fits = λ b f. omega (arith, least b f, h.small b);
        })
        | inr (f, l, least) ↦
            let proper : r ≢ board_id_not_fount = λ e. ground (arith, f.there, h.no_sentinel) in
            inr (record {
              proper = proper;
              fits = f;
              tightest = least;
              scored =
                  if_neg (ℤ_discrete r board_id_not_fount) proper _ _
                  ∙ node_score-total_orins d (pos 100);
            })
      ]
