-- ===== src/Topo/Views.antt =====
-- What the maps and the sets of a topology hold: which boards there are, and which orins each has.
use orin_device_system.Common.{
  ℤ, ℤ_discrete, List, [], ◌∷◌, none, some, Bool, true, ◌||◌, lookup, insert, has_key,
  lookup-insert, ◌≡◌, refl, arith, ite, Option-cases, inl, inr,
}
use orin_device_system.Common.Sets.{IntSets, elem}
use orin_device_system.Topo.{
  OrinDetails, BoardDetails, board, add_orin, add_orins, merge, add_board, insert_keys, board_set,
  orin_set,
}

-- Board `b` has orin `o`.
abbrev pub has_orin : BoardDetails → ℤ → ℤ → Bool
has_orin d b o = has_key ℤ_discrete o (board d b)

module _ {V : Type 0} (k j : ℤ) (v : V) (m : List (ℤ × V)) where
  pub has_key-insert :
      has_key ℤ_discrete j (insert ℤ_discrete k v m)
      ≡ ite (ℤ_discrete j k) true (has_key ℤ_discrete j m)
  has_key-insert = ground (arith, lookup-insert ℤ_discrete k j v m)

pub has_key-add_orin :
    (b o j : ℤ) (d : OrinDetails)
    → has_key ℤ_discrete j (add_orin b o d) ≡ ite (ℤ_discrete j o) true (has_key ℤ_discrete j d)
unfolding add_orin
has_key-add_orin b o j d = has_key-insert o j (record { board_id = b }) d

pub has_key-add_orins :
    (b : ℤ) (os : List ℤ) (j : ℤ) (d : OrinDetails)
    → has_key ℤ_discrete j (add_orins b os d) ≡ (elem j os || has_key ℤ_discrete j d)
unfolding add_orins elem
has_key-add_orins b [] j d = refl
has_key-add_orins b (o ∷ os) j d =
    ground (arith, has_key-add_orins b os j (add_orin b o d), has_key-add_orin b o j d)

pub has_key-merge :
    (od md : OrinDetails) (j : ℤ)
    → has_key ℤ_discrete j (merge od md) ≡ (has_key ℤ_discrete j od || has_key ℤ_discrete j md)
unfolding merge lookup
has_key-merge [] md j = refl
has_key-merge ((k, v) ∷ od) md j =
    ground (arith, has_key-merge od (insert ℤ_discrete k v md) j, has_key-insert k j v md)

-- A board that is not there yet is put there as it is.
pub lookup-add_board_new :
    (b j : ℤ) (od : OrinDetails) (d : BoardDetails)
    → lookup ℤ_discrete b d ≡ none
    → lookup ℤ_discrete j (add_board b od d)
      ≡ ite (ℤ_discrete j b) (some od) (lookup ℤ_discrete j d)
unfolding add_board
lookup-add_board_new b j od d h = ground (arith, lookup-insert ℤ_discrete b j od d)

pub has_key-add_board :
    (b j : ℤ) (od : OrinDetails) (d : BoardDetails)
    → has_key ℤ_discrete j (add_board b od d) ≡ ite (ℤ_discrete j b) true (has_key ℤ_discrete j d)
unfolding add_board
has_key-add_board b j od d = elim (Option-cases (lookup ℤ_discrete b d)) [
  | inl e ↦ ground (arith, lookup-insert ℤ_discrete b j od d)
  | inr (md, e) ↦ ground (arith, lookup-insert ℤ_discrete b j (merge od md) d)
]

-- Adding to a board adds the orins to that board and changes no other.
pub has_orin-add_board :
    (b j o : ℤ) (od : OrinDetails) (d : BoardDetails)
    → has_orin (add_board b od d) j o
      ≡ ite (ℤ_discrete j b) (has_key ℤ_discrete o od || has_orin d j o) (has_orin d j o)
unfolding add_board lookup
has_orin-add_board b j o od d = elim (Option-cases (lookup ℤ_discrete b d)) [
  | inl e ↦ ground (arith, lookup-insert ℤ_discrete b j od d)
  | inr (md, e) ↦
      ground (arith, lookup-insert ℤ_discrete b j (merge od md) d, has_key-merge od md o)
]

module _ ⦃S : IntSets⦄ where
  pub has-insert_keys :
      {V : Type 0} (d : List (ℤ × V)) (x : ℤ) (s : S.IntSet)
      → S.has x (insert_keys d s) ≡ (has_key ℤ_discrete x d || S.has x s)
  unfolding insert_keys lookup
  has-insert_keys [] x s = refl
  has-insert_keys ((k, v) ∷ d) x s =
      ground (arith, has-insert_keys d x (S.insert k s), S.has-insert x k s)

  pub has-board_set : (d : BoardDetails) (b : ℤ) → S.has b (board_set d) ≡ has_key ℤ_discrete b d
  unfolding board_set
  has-board_set d b = ground (arith, has-insert_keys d b S.empty, S.has-empty b)

  pub has-orin_set : (d : OrinDetails) (o : ℤ) → S.has o (orin_set d) ≡ has_key ℤ_discrete o d
  unfolding orin_set
  has-orin_set d o = ground (arith, has-insert_keys d o S.empty, S.has-empty o)
