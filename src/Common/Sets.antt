-- ===== src/Common/Sets.antt =====
-- `sets.Int` of k8s.io/apimachinery: the operations that the program calls, with what its
-- documentation says of them. The program never sees how a set is represented.
use orin_device_system.Common.Lists.{length, Text, Text_discrete}
use orin_device_system.Common.Int.{ℤ, ℤ_discrete}
use Prim.Native.Nat.{ℕ}
use mathlib.Core.Path.{◌≡◌}
use mathlib.Core.Logic.{◌↔◌, ite}
use mathlib.Core.List.{List, [], ◌∷◌, foldl}
use mathlib.Core.Bool.{Bool, true, false, ◌&&◌, not}

-- Whether a list of integers holds an integer.
unfoldable pub elem : ℤ → List ℤ → Bool
elem x [] = false
elem x (y ∷ ys) = ite (ℤ_discrete x y) true (elem x ys)

-- No integer stands twice.
abbrev pub Nodup : List ℤ → Type 0
Nodup [] = Unit
Nodup (x ∷ xs) = (elem x xs ≡ false) × Nodup xs

pub record IntSets : Type 1 where
  pub IntSet : Type 0
  pub empty : IntSet
  pub insert : ℤ → IntSet → IntSet
  pub has : ℤ → IntSet → Bool
  pub len : IntSet → ℕ
  pub is_superset : IntSet → IntSet → Bool
  pub difference : IntSet → IntSet → IntSet
  pub equal : IntSet → IntSet → Bool
  pub unsorted_list : IntSet → List ℤ
  pub has-empty : (x : ℤ) → has x empty ≡ false
  pub has-insert : (x y : ℤ) (s : IntSet) → has x (insert y s) ≡ ite (ℤ_discrete x y) true (has x s)
  pub has-difference : (x : ℤ) (s t : IntSet) → has x (difference s t) ≡ (has x s && not (has x t))
  pub is_superset_iff :
      (s t : IntSet) → (is_superset s t ≡ true) ↔ ((x : ℤ) → has x t ≡ true → has x s ≡ true)
  pub equal_iff : (s t : IntSet) → (equal s t ≡ true) ↔ ((x : ℤ) → has x s ≡ has x t)
  pub elem-unsorted_list : (x : ℤ) (s : IntSet) → elem x (unsorted_list s) ≡ has x s
  pub unsorted_list-Nodup : (s : IntSet) → Nodup (unsorted_list s)
  pub len-length : (s : IntSet) → len s ≡ length (unsorted_list s)

module _ ⦃S : IntSets⦄ where
  -- sets.NewInt(items...)
  unfoldable pub of_list : List ℤ → S.IntSet
  of_list = foldl (λ s x. S.insert x s) S.empty

-- `sets.String`: the program only adds to such a set.
pub record StringSets : Type 1 where
  pub StringSet : Type 0
  pub no_strings : StringSet
  pub insert_string : Text → StringSet → StringSet
  pub has_string : Text → StringSet → Bool
  pub has_string-empty : (x : Text) → has_string x no_strings ≡ false
  pub has_string-insert :
      (x y : Text) (s : StringSet)
      → has_string x (insert_string y s) ≡ ite (Text_discrete x y) true (has_string x s)
