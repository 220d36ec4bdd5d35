-- ===== src/Device/Provider/Queries.antt =====
-- The queries of pkg/device/provider/file.go side by side: the orins of a board and the boards of an
-- orin.
use orin_device_system.Common.{
  ℤ, ℤ_discrete, List, [], ◌∷◌, ◌++◌, map, none, some, Bool, true, false, ◌||◌, lookup,
  lookup-insert, ite, ◌≡◌, refl, arith, Option-cases, inl, inr, ◌∙◌, sym,
}
use orin_device_system.Common.Sets.{IntSets, elem}
use orin_device_system.Device.Provider.{
  get_boards, OrinSoc, BoardDevice, FileDeviceProvider, add_class, add_classes, orin_classes,
  get_orin_classes, soc_ids, board_orins, get_board_orins,
}

-- The file lists orin `o` on a board with ID `b`.
pub lists : List BoardDevice → ℤ → ℤ → Bool
lists [] b o = false
lists (d ∷ ds) b o = ite (ℤ_discrete b d.id) (elem o (soc_ids d.orin_socs)) false || lists ds b o

elem-append : (x : ℤ) (xs ys : List ℤ) → elem x (xs ++ ys) ≡ (elem x xs || elem x ys)
unfolding elem
elem-append x [] ys = refl
elem-append x (y ∷ xs) ys = ground (arith, elem-append x xs ys)

elem-board_orins :
    (ds : List BoardDevice) (b o : ℤ) (res : List ℤ)
    → elem o (board_orins ds b res) ≡ (elem o res || lists ds b o)
unfolding board_orins lists
elem-board_orins [] b o res = ground arith
elem-board_orins (d ∷ ds) b o res = ground (
  arith,
  elem-board_orins ds b o (ite (ℤ_discrete d.id b) (res ++ soc_ids d.orin_socs) res),
  elem-append o res (soc_ids d.orin_socs),
)

module _ ⦃S : IntSets⦄ where
  -- The boards that a class map has for an orin.
  abbrev pub in_class : List (ℤ × S.IntSet) → ℤ → ℤ → Bool
  in_class classes o b = elim (lookup ℤ_discrete o classes) [
    | none ↦ false
    | some board_ids ↦ S.has b board_ids
  ]

  in_class-add_class :
      (board_id soc_id o b : ℤ) (res : List (ℤ × S.IntSet))
      → in_class (add_class board_id soc_id res) o b ≡ (
          ite (ℤ_discrete o soc_id) (ite (ℤ_discrete b board_id) true false) false
          || in_class res o b)
  unfolding add_class
  in_class-add_class board_id soc_id o b res = elim (Option-cases (lookup ℤ_discrete soc_id res)) [
    | inl e ↦ ground (
      arith,
      lookup-insert ℤ_discrete soc_id o (S.insert board_id S.empty) res,
      S.has-insert b board_id S.empty,
      S.has-empty b,
    )
    | inr (ids, e) ↦ ground (
      arith,
      lookup-insert ℤ_discrete soc_id o (S.insert board_id ids) res,
      S.has-insert b board_id ids,
    )
  ]

  in_class-add_classes :
      (board_id o b : ℤ) (socs : List OrinSoc) (res : List (ℤ × S.IntSet))
      → in_class (add_classes board_id socs res) o b
        ≡ (ite (ℤ_discrete b board_id) (elem o (soc_ids socs)) false || in_class res o b)
  unfolding add_classes soc_ids elem
  in_class-add_classes board_id o b [] res = ground arith
  in_class-add_classes board_id o b (s ∷ socs) res = ground (
    arith,
    in_class-add_classes board_id o b socs (add_class board_id s.id res),
    in_class-add_class board_id s.id o b res,
  )

  in_class-orin_classes :
      (ds : List BoardDevice) (o b : ℤ) (res : List (ℤ × S.IntSet))
      → in_class (orin_classes ds res) o b ≡ (lists ds b o || in_class res o b)
  unfolding orin_classes lists
  in_class-orin_classes [] o b res = refl
  in_class-orin_classes (d ∷ ds) o b res = ground (
    arith,
    in_class-orin_classes ds o b (add_classes d.id d.orin_socs res),
    in_class-add_classes d.id o b d.orin_socs res,
  )

  -- `GetOrinClasses` gives an orin exactly the boards for which `GetBoardOrins` lists it.
  pub get_orin_classes-get_board_orins :
      (fp : FileDeviceProvider) (o b : ℤ)
      → in_class (get_orin_classes fp) o b ≡ elem o (get_board_orins fp b)
  unfolding get_orin_classes get_board_orins lookup elem
  get_orin_classes-get_board_orins fp o b =
      let ds = fp.file_device.board_devices in
      ground (arith, in_class-orin_classes ds o b [], elem-board_orins ds b o [])

-- A board that has orins is one of the boards.
lists-boards :
    (ds : List BoardDevice) (b o : ℤ)
    → lists ds b o ≡ true
    → elem b (map (λ (d : BoardDevice). d.id) ds) ≡ true
unfolding lists elem
lists-boards [] b o h = ground (arith, h)
lists-boards (d ∷ ds) b o h = ground (arith, h, lists-boards ds b o)

pub get_board_orins-get_boards :
    (fp : FileDeviceProvider) (b o : ℤ)
    → elem o (get_board_orins fp b) ≡ true
    → elem b (get_boards fp) ≡ true
unfolding get_board_orins get_boards elem
get_board_orins-get_boards fp b o h =
    let ds = fp.file_device.board_devices in
    lists-boards ds b o (sym (elem-board_orins ds b o []) ∙ h)
