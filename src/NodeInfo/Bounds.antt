-- ===== src/NodeInfo/Bounds.antt =====
-- The boards and orins that a node's capacity names (`NewNodeInfo` of pkg/scheduler/manager/cache.go).
use orin_device_system.Common.{
  ℤ, ℤ_discrete, [], ◌∷◌, true, Text, has_key, lookup, All, ◌≡◌, arith, Option-cases, Bool-cases,
  Result-cases, inl, inr, sym, subst,
}
use mathlib.Core.Bool.{false≢true}
use orin_device_system.Common.Sets.{IntSets}
use orin_device_system.Names.{
  has_prefix, board_id_from_resource_name, extend_resouce_type_board_prefix,
}
use orin_device_system.Names.RoundTrip.{IsInt64, parse_int-IsInt64}
use orin_device_system.DecimalMap.{new_decimal_map, parse}
use orin_device_system.DecimalMap.RoundTrip.{in_window}
use orin_device_system.DecimalMap.Bounds.{parse-window}
use orin_device_system.Topo.{
  BoardDetails, add_board, new_orin_details, add_orins, new_board_details,
}
use orin_device_system.Topo.Views.{
  has_orin, has_key-add_orins, has_key-add_board, has_orin-add_board,
}
use orin_device_system.Pods.{Node, TextMap}
use orin_device_system.NodeInfo.{add_capacity, add_capacities, default_orin_start_bit}

-- The boards have int64 IDs, and their orins IDs from 1 to 19.
pub record IsBounded (total : BoardDetails) : Type 0 where
  pub boards : (b : ℤ) → has_key ℤ_discrete b total ≡ true → IsInt64 b
  pub orins : (b o : ℤ) → has_orin total b o ≡ true → in_window 1 19 o ≡ true

-- The quantities of a capacity are int64, as `Quantity.Value` is.
abbrev pub FitsInt64 : Node → Type 0
FitsInt64 node = All (λ (entry : Text × ℤ). IsInt64 entry.1) node.capacity

module _ ⦃S : IntSets⦄ where
  add_board-IsBounded :
      (b : ℤ) (set : S.IntSet) (total : BoardDetails)
      → IsInt64 b
      → ((x : ℤ) → S.has x set ≡ true → in_window 1 19 x ≡ true)
      → IsBounded total
      → IsBounded (add_board b (add_orins b (S.unsorted_list set) new_orin_details) total)
  unfolding lookup
  add_board-IsBounded b set total int64 window t =
      let od = add_orins b (S.unsorted_list set) new_orin_details in
      record {
        boards = λ j h. elim (ℤ_discrete j b) [
          | yes e ↦ subst IsInt64 (sym e) int64
          | no e ↦ t.boards j (ground (arith, h, e, has_key-add_board b j od total))
        ];
        orins = λ j o h. elim (Bool-cases (S.has o set)) [
          | inl asked ↦ window o asked
          | inr unasked ↦ t.orins j o (
              ground (
                arith,
                h,
                unasked,
                has_orin-add_board b j o od total,
                has_key-add_orins b (S.unsorted_list set) o new_orin_details,
                S.elem-unsorted_list o set,
              ))
        ];
      }

  add_capacity-IsBounded :
      (rkey : Text) (rval : ℤ) (total : BoardDetails)
      → IsInt64 rval
      → IsBounded total
      → IsBounded (add_capacity rkey rval total)
  unfolding add_capacity board_id_from_resource_name
  add_capacity-IsBounded rkey rval total int64 t =
      elim (Bool-cases (has_prefix rkey extend_resouce_type_board_prefix)) [
        | inr other ↦ rw (other, add_capacity) t
        | inl prefixed ↦
            rw (prefixed, add_capacity)
              (elim (Option-cases (board_id_from_resource_name rkey)) [
                | inl e ↦ rw (e, add_capacity) t
                | inr (b, e) ↦
                    rw (e, add_capacity)
                      (elim (Result-cases (parse (new_decimal_map rval default_orin_start_bit)).1) [
                        | inr (x, p) ↦ rw (p, add_capacity) t
                        | inl (set, p) ↦
                            rw (p, add_capacity)
                              (add_board-IsBounded b set total (parse_int-IsInt64 _ b e)
                                (λ x h. parse-window rval set x int64 p h) t)
                      ])
              ])
      ]

  pub add_capacities-IsBounded :
      (capacity : TextMap ℤ) (total : BoardDetails)
      → All (λ (entry : Text × ℤ). IsInt64 entry.1) capacity
      → IsBounded total
      → IsBounded (add_capacities capacity total)
  unfolding add_capacities
  add_capacities-IsBounded [] total fits t = t
  add_capacities-IsBounded ((rkey, rval) ∷ capacity) total (int64, fits) t =
      add_capacities-IsBounded capacity (add_capacity rkey rval total) fits
        (add_capacity-IsBounded rkey rval total int64 t)

  pub no_boards-IsBounded : IsBounded new_board_details
  unfolding lookup
  no_boards-IsBounded = record {
    boards = λ b h. absurd (false≢true h);
    orins = λ b o h. absurd (false≢true h);
  }
