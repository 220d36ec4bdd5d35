-- ===== src/Topo.antt =====
-- pkg/scheduler/manager/topo/mazuinfo.go: the boards of a node and the orins (SoCs) on each board.
-- The Go maps are values here, and a nil map is the empty one.
pub mod Views
pub mod Difference
pub mod Equality
pub mod Distinctness
pub mod Forget
use orin_device_system.Common.{
  ℤ, ℤ_discrete, List, [], ◌∷◌, Option, none, some, Bool, true, false, lookup, insert, has_key,
  Result, ok, err, if◌then◌else◌,
}
use orin_device_system.Common.Sets.{IntSets}
use mathlib.Core.List.{foldl}
use mathlib.Core.Option

pub record OrinInfo : Type 0 where
  pub board_id : ℤ

abbrev pub OrinDetails : Type 0
OrinDetails = List (ℤ × OrinInfo)

abbrev pub BoardDetails : Type 0
BoardDetails = List (ℤ × OrinDetails)

pub data DetailsError : Type 0 where
  boards_not_superset orins_not_superset : DetailsError

-- The loop of `NewBoardDetails` ranges over an empty map.
abbrev pub new_board_details : BoardDetails
new_board_details = []

abbrev pub new_orin_details : OrinDetails
new_orin_details = []

-- d[board], where a missing key gives a nil map
abbrev pub board : BoardDetails → ℤ → OrinDetails
board d b = Option.get_or (lookup ℤ_discrete b d) new_orin_details

-- OrinDetails.Add
unfoldable pub add_orin : ℤ → ℤ → OrinDetails → OrinDetails
add_orin b o d = insert ℤ_discrete o (record { board_id = b }) d

-- for _, o := range orins { d.Add(board, o) }
unfoldable pub add_orins : ℤ → List ℤ → OrinDetails → OrinDetails
add_orins b [] d = d
add_orins b (o ∷ os) d = add_orins b os (add_orin b o d)

-- for k, v := range od { md[k] = v }
unfoldable pub merge : OrinDetails → OrinDetails → OrinDetails
merge [] md = md
merge ((k, v) ∷ od) md = merge od (insert ℤ_discrete k v md)

-- BoardDetails.Add
unfoldable pub add_board : ℤ → OrinDetails → BoardDetails → BoardDetails
add_board b od d = elim (lookup ℤ_discrete b d) [
  | none ↦ insert ℤ_discrete b od d
  | some md ↦ insert ℤ_discrete b (merge od md) d
]

module _ ⦃S : IntSets⦄ where
  -- for k := range d { s.Insert(k) }
  unfoldable pub insert_keys {ℓ} : {V : Type ℓ} → List (ℤ × V) → S.IntSet → S.IntSet
  insert_keys [] s = s
  insert_keys ((k, _) ∷ d) s = insert_keys d (S.insert k s)

  unfoldable pub board_set : BoardDetails → S.IntSet
  board_set d = insert_keys d S.empty

  unfoldable pub orin_set : OrinDetails → S.IntSet
  orin_set d = insert_keys d S.empty

  -- the loop of `Equal`
  unfoldable pub equal_orins : BoardDetails → BoardDetails → Bool
  equal_orins [] dst = true
  equal_orins ((mid, src_os) ∷ src) dst =
      if S.equal (orin_set src_os) (orin_set (board dst mid)) then equal_orins src dst else false

  -- BoardDetails.Equal
  unfoldable pub equal : BoardDetails → BoardDetails → Bool
  equal src dst = if S.equal (board_set src) (board_set dst) then equal_orins src dst else false

  -- for _, m := range boards { md.Add(m, src[m]) }
  unfoldable pub copy_boards : BoardDetails → List ℤ → BoardDetails → BoardDetails
  copy_boards src [] md = md
  copy_boards src (m ∷ ms) md = copy_boards src ms (add_board m (board src m) md)

  -- The orins of `src[b]` that are not in `sub_details`, each marked with its board.
  unfoldable pub orins_left : BoardDetails → ℤ → OrinDetails → OrinDetails
  orins_left src b sub_details =
      add_orins b (S.unsorted_list (S.difference (orin_set (board src b)) (orin_set sub_details)))
        new_orin_details

  -- the loop over `sub` of `DifferenceFromSuperset`
  unfoldable pub difference_boards :
      BoardDetails → BoardDetails → BoardDetails → Result DetailsError BoardDetails
  difference_boards src [] md = ok md
  difference_boards src ((b, od) ∷ sub) md =
      if S.is_superset (orin_set (board src b)) (orin_set od)
      then difference_boards src sub (add_board b (orins_left src b od) md)
      else err orins_not_superset

  -- BoardDetails.DifferenceFromSuperset
  unfoldable pub difference_from_superset :
      BoardDetails → BoardDetails → Result DetailsError BoardDetails
  difference_from_superset src sub =
      if S.is_superset (board_set src) (board_set sub)
      then difference_boards src sub (
          copy_boards src (S.unsorted_list (S.difference (board_set src) (board_set sub)))
            new_board_details)
      else err boards_not_superset
