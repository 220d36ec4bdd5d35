-- ===== src/Device/Plugin/Capacity/Entries.antt =====
-- What one entry of a node's capacity adds to its boards, and what all of them do.
use orin_device_system.Common.{
  ℤ, pos, List, [], ◌∷◌, none, some, Bool, false, ◌||◌, Text, Text_discrete, insert, lookup, if_pos,
  if_neg, ◌≡◌, ◌≢◌, ◌⊎◌, inl, inr, refl, ap, ◌∙◌, arith, Bool-cases, Option-cases, Result-cases,
}
use mathlib.Core.List.{foldl}
use orin_device_system.Common.Sets.{IntSets, elem, of_list}
use orin_device_system.Topo.{BoardDetails, add_orins, new_orin_details}
use orin_device_system.Topo.Views.{has_orin, has_orin-add_board}
use orin_device_system.Names.{
  has_prefix, board_id_from_resource_name, extend_resouce_type_board_prefix,
}
use orin_device_system.DecimalMap.{new_decimal_map, parse}
use orin_device_system.Pods.{TextMap}
use orin_device_system.NodeInfo.{add_capacity, add_capacities}

module _ ⦃S : IntSets⦄ where
  -- One entry of the capacity has orin `o` on board `b`.
  abbrev pub entry_has : Text → ℤ → ℤ → ℤ → Bool
  entry_has rkey rval b o = has_orin (add_capacity rkey rval []) b o

  unfoldable pub any_has : TextMap ℤ → ℤ → ℤ → Bool
  any_has [] b o = false
  any_has ((rkey, rval) ∷ m) b o = entry_has rkey rval b o || any_has m b o

  has_orin-add_capacity :
      (rkey : Text) (rval : ℤ) (total : BoardDetails) (b o : ℤ)
      → has_orin (add_capacity rkey rval total) b o
        ≡ (entry_has rkey rval b o || has_orin total b o)
  unfolding add_capacity lookup
  has_orin-add_capacity rkey rval total b o =
      elim (Bool-cases (has_prefix rkey extend_resouce_type_board_prefix)) [
        | inr n ↦ rw n refl
        | inl p ↦ rw p (elim (Option-cases (board_id_from_resource_name rkey)) [
          | inl e ↦ rw (e, add_capacity) refl
          | inr (id, e) ↦ elim (Result-cases (parse (new_decimal_map rval (pos 1))).1) [
            | inr (why, f) ↦ rw (e, add_capacity) (rw (f, add_capacity) refl)
            | inl (t, f) ↦
                let od = add_orins id (S.unsorted_list t) new_orin_details in
                rw (e, add_capacity)
                  (rw (f, add_capacity)
                    (ground
                      (arith, has_orin-add_board id b o od total, has_orin-add_board id b o od [])))
          ]
        ])
      ]

  pub has_orin-add_capacities :
      (m : TextMap ℤ) (total : BoardDetails) (b o : ℤ)
      → has_orin (add_capacities m total) b o ≡ (any_has m b o || has_orin total b o)
  unfolding add_capacities any_has
  has_orin-add_capacities [] total b o = refl
  has_orin-add_capacities ((rkey, rval) ∷ m) total b o = ground (
    arith,
    has_orin-add_capacities m (add_capacity rkey rval total) b o,
    has_orin-add_capacity rkey rval total b o,
  )

  -- A key that is new, or that is there with the same value.
  abbrev pub Agrees : Text → ℤ → TextMap ℤ → Type 0
  Agrees k v m = (lookup Text_discrete k m ≡ none) ⊎ (lookup Text_discrete k m ≡ some v)

  pub any_has-insert :
      (k : Text) (v : ℤ) (m : TextMap ℤ) (b o : ℤ)
      → Agrees k v m
      → any_has (insert Text_discrete k v m) b o ≡ (entry_has k v b o || any_has m b o)
  unfolding any_has insert lookup
  any_has-insert k v [] b o h = refl
  any_has-insert k v ((j, w) ∷ m) b o h = elim (Text_discrete j k) [
    | yes p ↦
        let same : w ≡ v = ground (arith, h, p) in
        let entry : entry_has j w b o ≡ entry_has k v b o =
          ap (λ i. entry_has i w b o) p ∙ ap (λ u. entry_has k u b o) same in
        rw (if_pos (Text_discrete j k) p ((k, v) ∷ m) ((j, w) ∷ insert Text_discrete k v m))
          (ground (arith, entry))
    | no n ↦
        rw (if_neg (Text_discrete j k) n ((k, v) ∷ m) ((j, w) ∷ insert Text_discrete k v m))
          (ground (arith, any_has-insert k v m b o (tail_agrees n)))
  ]
    where
      tail_agrees : j ≢ k → Agrees k v m
      tail_agrees n = ground (arith, h, n)

  has-foldl :
      (xs : List ℤ) (x : ℤ) (s : S.IntSet)
      → S.has x (foldl (λ t y. S.insert y t) s xs) ≡ (elem x xs || S.has x s)
  unfolding elem
  has-foldl [] x s = refl
  has-foldl (y ∷ xs) x s = ground (arith, has-foldl xs x (S.insert y s), S.has-insert x y s)

  pub has-of_list : (xs : List ℤ) (x : ℤ) → S.has x (of_list xs) ≡ elem x xs
  unfolding of_list
  has-of_list xs x = ground (arith, has-foldl xs x S.empty, S.has-empty x)
