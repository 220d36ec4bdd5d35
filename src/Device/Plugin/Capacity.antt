-- ===== src/Device/Plugin/Capacity.antt =====
-- The capacity that pkg/device/plugin/orin.go writes, in `NewNodeInfo` of
-- pkg/scheduler/manager/cache.go.
pub mod Entries
use orin_device_system.Common.{
  ℕ, ℤ, ℤ_discrete, pos, List, [], ◌∷◌, none, some, Bool, true, false, ◌||◌, ◌&&◌, Text,
  Text_discrete, insert, lookup, lookup-insert, ite, if_pos, if_neg, ◌≡◌, ◌≢◌, ◌⊎◌, inl, inr, refl,
  sym, ap, ◌∙◌, subst, arith, Bool-cases, Option-cases, Result-cases,
}
use mathlib.Core.List.{foldl}
use orin_device_system.Common.Sets.{IntSets, elem, of_list}
use orin_device_system.Topo.{BoardDetails, add_orins, new_orin_details}
use orin_device_system.Topo.Views.{has_orin, has_orin-add_board, has_key-add_orins}
use orin_device_system.Names.{
  has_prefix, board_id_from_resource_name, extend_resouce_type_board,
  extend_resouce_type_board_prefix,
}
use orin_device_system.Names.RoundTrip.{IsInt64, board_id-format_int}
use orin_device_system.DecimalMap.{new_decimal_map, parse, build_decimal_map}
use orin_device_system.DecimalMap.Weight.{InWindow}
use orin_device_system.DecimalMap.RoundTrip.{parse-build_decimal_map}
use mathlib.Core.Bool.{false≢true}
use orin_device_system.Pods.{TextMap, Node}
use orin_device_system.NodeInfo.{add_capacity, add_capacities, add_pods, new_node_info}
use orin_device_system.Device.Provider.{FileDeviceProvider, get_boards, get_board_orins}
use orin_device_system.Device.Provider.Queries.{get_board_orins-get_boards}
use orin_device_system.Device.Plugin.{board_resource, board_resources, node_extra_resource}
use orin_device_system.Device.Plugin.Capacity.Entries.{
  entry_has, any_has, has_orin-add_capacities, Agrees, any_has-insert, has-of_list,
}

module _ ⦃S : IntSets⦄ where
  module _ (huge : ℕ → ℤ) (fp : FileDeviceProvider) where
    -- What the plugin writes for one board.
    abbrev board_value : ℤ → ℤ
    board_value bid = build_decimal_map huge (of_list (get_board_orins fp bid)) (pos 1)

    -- The file's IDs fit: board IDs are ints, and orin IDs are from 1 to 19.
    pub record IdsFit : Type 0 where
      pub boards_fit : (b : ℤ) → elem b (get_boards fp) ≡ true → IsInt64 b
      pub orins_fit : (b o : ℤ) → elem o (get_board_orins fp b) ≡ true → InWindow 1 19 o

    entry_has-board :
        (bid b o : ℤ)
        → IdsFit
        → IsInt64 bid
        → entry_has (board_resource bid) (board_value bid) b o
          ≡ ite (ℤ_discrete b bid) (elem o (get_board_orins fp bid)) false
    unfolding add_capacity lookup
    entry_has-board bid b o fit int64 =
        let set = of_list (get_board_orins fp bid) in
        let (named, parsed) = board_id-format_int bid int64 in
        let (t, read, holds) =
          parse-build_decimal_map huge 1 set (omega arith)
            (λ x e. fit.orins_fit bid x (sym (has-of_list (get_board_orins fp bid) x) ∙ e)) in
        let od = add_orins bid (S.unsorted_list t) new_orin_details in
        rw named (
          rw (parsed, add_capacity)
            (rw (read, add_capacity)
              (ground (
                arith,
                has_orin-add_board bid b o od [],
                has_key-add_orins bid (S.unsorted_list t) o [],
                S.elem-unsorted_list o t,
                holds o,
                has-of_list (get_board_orins fp bid) o,
              ))))

    board_resource-injective :
        (b b' : ℤ) → IsInt64 b → IsInt64 b' → board_resource b ≡ board_resource b' → b ≡ b'
    board_resource-injective b b' h h' e = ground (
      arith,
      sym (board_id-format_int b h).1
          ∙ ap board_id_from_resource_name e
          ∙ (board_id-format_int b' h').1,
    )

    -- The map has, for each board, no entry or the one that the plugin writes.
    abbrev Agreeing : TextMap ℤ → Type 0
    Agreeing m = (b : ℤ) → IsInt64 b → Agrees (board_resource b) (board_value b) m

    insert-Agreeing :
        (b : ℤ) (m : TextMap ℤ)
        → IsInt64 b
        → Agreeing m
        → Agreeing (insert Text_discrete (board_resource b) (board_value b) m)
    insert-Agreeing b m h agrees b' h' =
        elim (Text_discrete (board_resource b') (board_resource b)) [
          | yes p ↦
              let same = board_resource-injective b' b h' h p in
              inr (
                lookup-insert Text_discrete (board_resource b) (board_resource b') (board_value b) m
                ∙ if_pos (Text_discrete (board_resource b') (board_resource b)) p _ _
                ∙ ap (λ i. some (board_value i)) (sym same))
          | no n ↦
              subst (λ l. (l ≡ none) ⊎ (l ≡ some (board_value b')))
                (sym (
                  lookup-insert Text_discrete (board_resource b) (board_resource b') (board_value b)
                    m
                  ∙ if_neg (Text_discrete (board_resource b') (board_resource b)) n _ _))
                (agrees b' h')
        ]

    any_has-board_resources :
        (bids : List ℤ) (m : TextMap ℤ) (b o : ℤ)
        → IdsFit
        → ((i : ℤ) → elem i bids ≡ true → IsInt64 i)
        → Agreeing m
        → any_has (board_resources huge fp bids m) b o
          ≡ ((elem b bids && elem o (get_board_orins fp b)) || any_has m b o)
    unfolding board_resources elem
    any_has-board_resources [] m b o fit ints agrees = refl
    any_has-board_resources (bid ∷ bids) m b o fit ints agrees =
        let int64 = ints bid (if_pos (ℤ_discrete bid bid) refl true (elem bid bids)) in
        let m' = insert Text_discrete (board_resource bid) (board_value bid) m in
        let rest =
          any_has-board_resources bids m' b o fit (λ i e. ints i (ground (arith, e)))
            (insert-Agreeing bid m int64 agrees) in
        let added =
          any_has-insert (board_resource bid) (board_value bid) m b o (agrees bid int64) in
        ground (arith, rest, added, entry_has-board bid b o fit int64)

    board_resource-proper : (b : ℤ) → IsInt64 b → extend_resouce_type_board ≢ board_resource b
    unfolding has_prefix
    board_resource-proper b h e =
        let no_prefix : has_prefix extend_resouce_type_board extend_resouce_type_board_prefix
            ≡ false =
          refl in
        false≢true (
          sym no_prefix
          ∙ ap (λ k. has_prefix k extend_resouce_type_board_prefix) e
          ∙ (board_id-format_int b h).0)

    start_Agreeing : Agreeing ((extend_resouce_type_board, pos 1024) ∷ [])
    unfolding lookup
    start_Agreeing b h = inl (ground (arith, board_resource-proper b h))

    start_has : (b o : ℤ) → any_has ((extend_resouce_type_board, pos 1024) ∷ []) b o ≡ false
    unfolding any_has add_capacity has_prefix lookup
    start_has b o = refl

    -- If the board IDs of the device file are ints and its orin IDs are from 1 to 19, then a node
    -- with the capacity that the plugin writes has, in the scheduler, exactly the orins that the
    -- file lists on each board, and all of them are free.
    pub node_extra_resource-new_node_info :
        (node : Node)
        → IdsFit
        → node.capacity ≡ node_extra_resource huge fp
        → ((b o : ℤ) → has_orin (new_node_info node []).total b o ≡ elem o (get_board_orins fp b))
          × ((b o : ℤ)
              → has_orin (new_node_info node []).allocatable b o ≡ elem o (get_board_orins fp b))
    unfolding new_node_info add_pods node_extra_resource lookup
    node_extra_resource-new_node_info node fit e =
        let start : TextMap ℤ = (extend_resouce_type_board, pos 1024) ∷ [] in
        let listed : (b o : ℤ)
            → has_orin (add_capacities node.capacity []) b o ≡ elem o (get_board_orins fp b) =
          λ b o.
            ap (λ m. has_orin (add_capacities m []) b o) e
            ∙ ground (
              arith,
              has_orin-add_capacities (board_resources huge fp (get_boards fp) start) [] b o,
              any_has-board_resources (get_boards fp) start b o fit fit.boards_fit start_Agreeing,
              start_has b o,
              get_board_orins-get_boards fp b o,
            ) in
        (listed, listed)
