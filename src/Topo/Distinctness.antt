-- ===== src/Topo/Distinctness.antt =====
-- The keys of the maps that the operations build.
use orin_device_system.Common.{
  ℤ, ℤ_discrete, List, [], ◌∷◌, lookup, Distinct, insert-Distinct, ◌≡◌, arith, Option-cases, inl,
  inr, ok,
}
use orin_device_system.Common.Sets.{IntSets}
use orin_device_system.Topo.{
  OrinDetails, BoardDetails, board, add_orin, add_orins, add_board, merge, copy_boards, orins_left,
  difference_boards, difference_from_superset, board_set,
}

pub add_orins-Distinct :
    (b : ℤ) (os : List ℤ) (d : OrinDetails)
    → Distinct ℤ_discrete d
    → Distinct ℤ_discrete (add_orins b os d)
unfolding add_orins add_orin
add_orins-Distinct b [] d n = n
add_orins-Distinct b (o ∷ os) d n =
    add_orins-Distinct b os (add_orin b o d)
      (insert-Distinct ℤ_discrete o (record { board_id = b }) d n)

pub add_board-Distinct :
    (b : ℤ) (od : OrinDetails) (d : BoardDetails)
    → Distinct ℤ_discrete d
    → Distinct ℤ_discrete (add_board b od d)
unfolding add_board
add_board-Distinct b od d n = elim (Option-cases (lookup ℤ_discrete b d)) [
  | inl e ↦ rw (e, add_board) (insert-Distinct ℤ_discrete b od d n)
  | inr (md, e) ↦ rw (e, add_board) (insert-Distinct ℤ_discrete b (merge od md) d n)
]

module _ ⦃S : IntSets⦄ where
  copy_boards-Distinct :
      (src : BoardDetails) (ms : List ℤ) (md : BoardDetails)
      → Distinct ℤ_discrete md
      → Distinct ℤ_discrete (copy_boards src ms md)
  unfolding copy_boards
  copy_boards-Distinct src [] md n = n
  copy_boards-Distinct src (m ∷ ms) md n =
      copy_boards-Distinct src ms (add_board m (board src m) md)
        (add_board-Distinct m (board src m) md n)

  difference_boards-Distinct :
      (src sub md : BoardDetails) {d : BoardDetails}
      → Distinct ℤ_discrete md
      → difference_boards src sub md ≡ ok d
      → Distinct ℤ_discrete d
  unfolding difference_boards
  difference_boards-Distinct src [] md n e = ground arith
  difference_boards-Distinct src ((k, od) ∷ sub) md {d} n e =
      let left = orins_left src k od in
      difference_boards-Distinct src sub (add_board k left md) {d = d}
        (add_board-Distinct k left md n) (ground arith)

  pub difference-Distinct :
      (src sub : BoardDetails) {d : BoardDetails}
      → difference_from_superset src sub ≡ ok d
      → Distinct ℤ_discrete d
  unfolding difference_from_superset
  difference-Distinct src sub {d} e =
      let rest = S.unsorted_list (S.difference (board_set src) (board_set sub)) in
      difference_boards-Distinct src sub (copy_boards src rest []) {d = d}
        (copy_boards-Distinct src rest [] tt) (ground arith)
