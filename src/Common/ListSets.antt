-- ===== src/Common/ListSets.antt =====
-- Lists of integers as an instance of `IntSets`: its laws can be met.
use orin_device_system.Common.{
  ℤ, ℤ_discrete, List, [], ◌∷◌, Bool, true, false, ◌&&◌, not, ◌≡◌, ◌↔◌, refl, arith, ite, length,
  if◌then◌else◌, eq_of_iff, ◌∙◌, sym,
}
use orin_device_system.Common.Sets.{IntSets, elem, Nodup}

unfoldable pub add : ℤ → List ℤ → List ℤ
add x s = if elem x s then s else x ∷ s

pub elem-add : (x y : ℤ) (s : List ℤ) → elem x (add y s) ≡ ite (ℤ_discrete x y) true (elem x s)
unfolding add elem
elem-add x y s = ground arith

unfoldable pub contains_all : List ℤ → List ℤ → Bool
contains_all s [] = true
contains_all s (x ∷ t) = if elem x s then contains_all s t else false

contains_all-elem :
    (s t : List ℤ) → contains_all s t ≡ true → (x : ℤ) → elem x t ≡ true → elem x s ≡ true
unfolding contains_all elem
contains_all-elem s [] h x e = ground arith
contains_all-elem s (y ∷ t) h x e = ground (arith, contains_all-elem s t (ground arith) x)

elem-contains_all :
    (s t : List ℤ) → ((x : ℤ) → elem x t ≡ true → elem x s ≡ true) → contains_all s t ≡ true
unfolding contains_all elem
elem-contains_all s [] h = refl
elem-contains_all s (y ∷ t) h =
    ground (arith, h y, elem-contains_all s t (λ x e. ground (arith, h x)))

unfoldable pub minus : List ℤ → List ℤ → List ℤ
minus [] t = []
minus (x ∷ s) t = if elem x t then minus s t else x ∷ minus s t

pub elem-minus : (x : ℤ) (s t : List ℤ) → elem x (minus s t) ≡ (elem x s && not (elem x t))
unfolding minus elem
elem-minus x [] t = refl
elem-minus x (y ∷ s) t = ground (arith, elem-minus x s t)

-- The list with each integer once.
unfoldable pub dedup : List ℤ → List ℤ
dedup [] = []
dedup (x ∷ s) = add x (dedup s)

pub elem-dedup : (x : ℤ) (s : List ℤ) → elem x (dedup s) ≡ elem x s
unfolding dedup elem
elem-dedup x [] = refl
elem-dedup x (y ∷ s) = ground (arith, elem-add x y (dedup s), elem-dedup x s)

pub dedup-Nodup : (s : List ℤ) → Nodup (dedup s)
unfolding dedup add
dedup-Nodup [] = tt
dedup-Nodup (x ∷ s) = ground (arith, dedup-Nodup s)

unfoldable pub same : List ℤ → List ℤ → Bool
same s t = contains_all s t && contains_all t s

pub same_iff : (s t : List ℤ) → (same s t ≡ true) ↔ ((x : ℤ) → elem x s ≡ elem x t)
unfolding same
same_iff s t = (
  λ h x.
      eq_of_iff (elem x s) (elem x t) (contains_all-elem t s (ground arith) x)
        (contains_all-elem s t (ground arith) x),
  λ h.
      ground (
        arith,
        elem-contains_all s t (λ x e. h x ∙ e),
        elem-contains_all t s (λ x e. sym (h x) ∙ e),
      ),
)

pub contains_all_iff :
    (s t : List ℤ) → (contains_all s t ≡ true) ↔ ((x : ℤ) → elem x t ≡ true → elem x s ≡ true)
contains_all_iff s t = (contains_all-elem s t, elem-contains_all s t)

pub elem-nil : (x : ℤ) → elem x [] ≡ false
unfolding elem
elem-nil x = refl

instance abbrev pub list_sets : IntSets
list_sets = record {
  IntSet = List ℤ;
  empty = [];
  insert = add;
  has = elem;
  len = λ s. length (dedup s);
  is_superset = contains_all;
  difference = minus;
  equal = same;
  unsorted_list = dedup;
  has-empty = elem-nil;
  has-insert = elem-add;
  has-difference = elem-minus;
  is_superset_iff = contains_all_iff;
  equal_iff = same_iff;
  elem-unsorted_list = elem-dedup;
  unsorted_list-Nodup = dedup-Nodup;
  len-length = λ s. refl;
}
