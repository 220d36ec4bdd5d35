-- ===== src/Topo/Difference.antt =====
-- `DifferenceFromSuperset`: when it succeeds, and what it then returns.
use orin_device_system.Common.{
  ℤ, ℤ_discrete, List, [], ◌∷◌, Option, none, some, true, ◌&&◌, not, lookup, has_key, Distinct, ◌≡◌,
  ◌↔◌, refl, arith, ok, is_ok, if◌then◌else◌,
}
use orin_device_system.Common.Sets.{IntSets, elem, Nodup}
use orin_device_system.Topo.{
  OrinDetails, BoardDetails, board, add_board, copy_boards, orins_left, board_set, orin_set,
  difference_boards, difference_from_superset,
}
use orin_device_system.Topo.Views.{
  has_orin, has_key-add_orins, lookup-add_board_new, has-board_set, has-orin_set,
}

-- Every board of `sub` is a board of `src`, and has no other orins.
pub record Covers (src sub : BoardDetails) : Type 0 where
  pub boards : (b : ℤ) → has_key ℤ_discrete b sub ≡ true → has_key ℤ_discrete b src ≡ true
  pub orins : (b o : ℤ) → has_orin sub b o ≡ true → has_orin src b o ≡ true

-- What board `b` is left with: `src[b]` without the orins that `sub` has there.
abbrev left_or :
    ⦃S : IntSets⦄ → BoardDetails → ℤ → Option OrinDetails → Option OrinDetails → Option OrinDetails
left_or src b none other = other
left_or src b (some od) other = some (orins_left src b od)

module _ ⦃S : IntSets⦄ where
  pub has_key-orins_left :
      (src : BoardDetails) (b o : ℤ) (od : OrinDetails)
      → has_key ℤ_discrete o (orins_left src b od)
        ≡ (has_orin src b o && not (has_key ℤ_discrete o od))
  unfolding orins_left lookup
  has_key-orins_left src b o od =
      let left = S.difference (orin_set (board src b)) (orin_set od) in
      ground (
        arith,
        has_key-add_orins b (S.unsorted_list left) o [],
        S.elem-unsorted_list o left,
        S.has-difference o (orin_set (board src b)) (orin_set od),
        has-orin_set (board src b) o,
        has-orin_set od o,
      )

  lookup-copy_boards :
      (src : BoardDetails) (ms : List ℤ) (b : ℤ) (md : BoardDetails)
      → Nodup ms
      → ((x : ℤ) → elem x ms ≡ true → lookup ℤ_discrete x md ≡ none)
      → lookup ℤ_discrete b (copy_boards src ms md)
        ≡ (if elem b ms then some (board src b) else lookup ℤ_discrete b md)
  unfolding copy_boards elem
  lookup-copy_boards src [] b md n h = refl
  lookup-copy_boards src (m ∷ ms) b md n h =
      let added = add_board m (board src m) md in
      ground (
        arith,
        lookup-copy_boards src ms b added n.1 fresh,
        lookup-add_board_new m b (board src m) md (h m (ground arith)),
      )
    where
      fresh : (x : ℤ) → elem x ms ≡ true → lookup ℤ_discrete x (add_board m (board src m) md) ≡ none
      fresh x e =
          ground (arith, h x, n.0, lookup-add_board_new m x (board src m) md (h m (ground arith)))

  lookup-difference_boards :
      (src sub md : BoardDetails) {d : BoardDetails}
      → Distinct ℤ_discrete sub
      → ((x : ℤ) → has_key ℤ_discrete x sub ≡ true → lookup ℤ_discrete x md ≡ none)
      → difference_boards src sub md ≡ ok d
      → (b : ℤ)
      → lookup ℤ_discrete b d ≡ left_or src b (lookup ℤ_discrete b sub) (lookup ℤ_discrete b md)
  unfolding difference_boards lookup
  lookup-difference_boards src [] md n h e b = ground arith
  lookup-difference_boards src ((k, od) ∷ sub) md {d} n h e b = ground (
    arith,
    lookup-difference_boards src sub (add_board k (orins_left src k od) md) {d = d} n.1 fresh
        (ground arith) b,
    lookup-add_board_new k b (orins_left src k od) md (h k (ground arith)),
  )
    where
      fresh :
          (x : ℤ)
          → has_key ℤ_discrete x sub ≡ true
          → lookup ℤ_discrete x (add_board k (orins_left src k od) md) ≡ none
      fresh x e' =
          ground (
            arith,
            h x,
            n.0,
            lookup-add_board_new k x (orins_left src k od) md (h k (ground arith)),
          )

  -- The boards that `sub` does not name, as copied from `src`.
  abbrev untouched : BoardDetails → BoardDetails → BoardDetails
  untouched src sub =
      copy_boards src (S.unsorted_list (S.difference (board_set src) (board_set sub))) []

  lookup-untouched :
      (src sub : BoardDetails) (b : ℤ)
      → lookup ℤ_discrete b (untouched src sub) ≡ (
          if has_key ℤ_discrete b src && not (has_key ℤ_discrete b sub)
          then some (board src b)
          else none)
  unfolding lookup
  lookup-untouched src sub b =
      let rest = S.difference (board_set src) (board_set sub) in
      ground (
        arith,
        lookup-copy_boards src (S.unsorted_list rest) b [] (S.unsorted_list-Nodup rest)
            (λ x h. refl),
        S.elem-unsorted_list b rest,
        S.has-difference b (board_set src) (board_set sub),
        has-board_set src b,
        has-board_set sub b,
      )

  lookup-difference :
      (src sub : BoardDetails) {d : BoardDetails}
      → Distinct ℤ_discrete sub
      → difference_from_superset src sub ≡ ok d
      → (b : ℤ)
      → lookup ℤ_discrete b d
        ≡ left_or src b (lookup ℤ_discrete b sub) (lookup ℤ_discrete b (untouched src sub))
  unfolding difference_from_superset
  lookup-difference src sub {d} n e =
      lookup-difference_boards src sub (untouched src sub) {d = d} n
        (λ x h. ground (arith, lookup-untouched src sub x)) (ground arith)

  difference_boards-covers :
      (src sub md : BoardDetails)
      → Distinct ℤ_discrete sub
      → is_ok (difference_boards src sub md) ≡ true
      → (b o : ℤ) → has_orin sub b o ≡ true
      → has_orin src b o ≡ true
  unfolding difference_boards lookup
  difference_boards-covers src [] md n e b o h = ground arith
  difference_boards-covers src ((k, od) ∷ sub) md n e b o h = ground (
    arith,
    difference_boards-covers src sub (add_board k (orins_left src k od) md) n.1 (ground arith) b o,
    (S.is_superset_iff (orin_set (board src k)) (orin_set od)).0 (ground arith) o,
    has-orin_set (board src k) o,
    has-orin_set od o,
  )

  covers-difference_boards :
      (src sub md : BoardDetails)
      → Distinct ℤ_discrete sub
      → ((b o : ℤ) → has_orin sub b o ≡ true → has_orin src b o ≡ true)
      → is_ok (difference_boards src sub md) ≡ true
  unfolding difference_boards lookup
  covers-difference_boards src [] md n h = refl
  covers-difference_boards src ((k, od) ∷ sub) md n h = ground (
    arith,
    covers-difference_boards src sub (add_board k (orins_left src k od) md) n.1 later,
    (S.is_superset_iff (orin_set (board src k)) (orin_set od)).1 here,
  )
    where
      here : (o : ℤ) → S.has o (orin_set od) ≡ true → S.has o (orin_set (board src k)) ≡ true
      here o e = ground (arith, h k o, has-orin_set (board src k) o, has-orin_set od o)

      later : (b o : ℤ) → has_orin sub b o ≡ true → has_orin src b o ≡ true
      later b o e = ground (arith, h b o, n.0)

  -- If `DifferenceFromSuperset` of maps succeeds, where the keys of `sub` are distinct, then its
  -- result has exactly the boards of `src`, and on each of them exactly the orins that `src` has
  -- there and `sub` does not.
  pub difference-has_orin :
      (src sub : BoardDetails) {d : BoardDetails}
      → Distinct ℤ_discrete sub
      → difference_from_superset src sub ≡ ok d
      → ((b : ℤ) → has_key ℤ_discrete b d ≡ has_key ℤ_discrete b src)
        × ((b o : ℤ) → has_orin d b o ≡ (has_orin src b o && not (has_orin sub b o)))
  unfolding lookup difference_from_superset
  difference-has_orin src sub {d} n e = (boards_kept, orins_left_lem)
    where
      boards_in : (b : ℤ) → has_key ℤ_discrete b sub ≡ true → has_key ℤ_discrete b src ≡ true
      boards_in b h = ground (
        arith,
        (S.is_superset_iff (board_set src) (board_set sub)).0 (ground arith) b,
        has-board_set src b,
        has-board_set sub b,
      )

      boards_kept : (b : ℤ) → has_key ℤ_discrete b d ≡ has_key ℤ_discrete b src
      boards_kept b =
          ground (
            arith,
            lookup-difference src sub {d = d} n e b,
            lookup-untouched src sub b,
            boards_in b,
          )

      orins_left_lem : (b o : ℤ) → has_orin d b o ≡ (has_orin src b o && not (has_orin sub b o))
      orins_left_lem b o = ground (
        arith,
        lookup-difference src sub {d = d} n e b,
        lookup-untouched src sub b,
        has_key-orins_left src b o (board sub b),
      )

  -- If the keys of `sub` are distinct, `DifferenceFromSuperset` succeeds exactly if `src` has
  -- every board of `sub` and, on it, every orin.
  pub difference-Covers_iff :
      (src sub : BoardDetails)
      → Distinct ℤ_discrete sub
      → (is_ok (difference_from_superset src sub) ≡ true) ↔ Covers src sub
  unfolding difference_from_superset
  difference-Covers_iff src sub n = (covers, succeeds)
    where
      covers : is_ok (difference_from_superset src sub) ≡ true → Covers src sub
      covers e = record {
        boards = λ b h. ground (
          arith,
          (S.is_superset_iff (board_set src) (board_set sub)).0 (ground arith) b,
          has-board_set src b,
          has-board_set sub b,
        );
        orins = difference_boards-covers src sub (untouched src sub) n (ground arith);
      }

      succeeds : Covers src sub → is_ok (difference_from_superset src sub) ≡ true
      succeeds c = ground (
        arith,
        (S.is_superset_iff (board_set src) (board_set sub)).1
            (λ b h. ground (arith, c.boards b, has-board_set src b, has-board_set sub b)),
        covers-difference_boards src sub (untouched src sub) n c.orins,
      )
