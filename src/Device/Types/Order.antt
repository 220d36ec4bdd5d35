-- ===== src/Device/Types/Order.antt =====
-- `NewDevice` and `Equals` of pkg/device/types/device.go, and the order of device IDs.
use orin_device_system.Common.{
  ℕ, ◌+◌, List, [], ◌∷◌, true, false, Text, Text_discrete, ite, ◌≡◌, inl, inr, refl, sym, ap, ap₂,
  ◌∙◌, arith, Bool-cases,
}
use mathlib.Core.List.{Permᴰ}
use orin_device_system.Device.Types.{
  text_le, insert_sorted, sort_strings, new_device, equal_lists, equals,
}

text_le_total : (s t : Text) → text_le s t ≡ false → text_le t s ≡ true
unfolding text_le
text_le_total [] t h = ground (arith, h)
text_le_total (c ∷ s) [] h = refl
text_le_total (c ∷ s) (d ∷ t) h = ground (arith, h, text_le_total s t)

text_le_antisym : (s t : Text) → text_le s t ≡ true → text_le t s ≡ true → s ≡ t
unfolding text_le
text_le_antisym [] [] h k = refl
text_le_antisym [] (d ∷ t) h k = ground (arith, k)
text_le_antisym (c ∷ s) [] h k = ground (arith, h)
text_le_antisym (c ∷ s) (d ∷ t) h k =
    let e : c ≡ d = ground (arith, h, k) in
    let f : s ≡ t = text_le_antisym s t (ground (arith, h, k)) (ground (arith, h, k)) in
    rw (e, f) refl

text_le_trans : (s t u : Text) → text_le s t ≡ true → text_le t u ≡ true → text_le s u ≡ true
unfolding text_le
text_le_trans [] t u h k = refl
text_le_trans (c ∷ s) [] u h k = ground (arith, h)
text_le_trans (c ∷ s) (d ∷ t) [] h k = ground (arith, k)
text_le_trans (c ∷ s) (d ∷ t) (e ∷ u) h k = ground (arith, h, k, text_le_trans s t u)

-- Two different strings are inserted in either order.
insert_sorted_comm_lt :
    (x y : Text) (s : List Text)
    → text_le y x ≡ false
    → insert_sorted x (insert_sorted y s) ≡ insert_sorted y (insert_sorted x s)
unfolding insert_sorted
insert_sorted_comm_lt x y [] n = rw (n, text_le_total y x n) refl
insert_sorted_comm_lt x y (z ∷ s) n =
    let p : text_le x y ≡ true = text_le_total y x n in
    elim (Bool-cases (text_le y z)) [
      | inl a ↦ rw a (rw (p, text_le_trans x y z p a) (rw (n, a) refl))
      | inr a ↦ elim (Bool-cases (text_le x z)) [
        | inl b ↦ rw (a, b) (rw n (rw a refl))
        | inr b ↦ rw (a, b) (rw a (ap (λ t. z ∷ t) (insert_sorted_comm_lt x y s n)))
      ]
    ]

insert_sorted_comm :
    (x y : Text) (s : List Text)
    → insert_sorted x (insert_sorted y s) ≡ insert_sorted y (insert_sorted x s)
insert_sorted_comm x y s = elim (Bool-cases (text_le y x)) [
  | inr n ↦ insert_sorted_comm_lt x y s n
  | inl q ↦ elim (Bool-cases (text_le x y)) [
    | inr n ↦ sym (insert_sorted_comm_lt y x s n)
    | inl p ↦ rw (text_le_antisym x y p q) refl
  ]
]

sort_strings-Permᴰ : {xs ys : List Text} → Permᴰ xs ys → sort_strings xs ≡ sort_strings ys
unfolding sort_strings
sort_strings-Permᴰ Permᴰ.nil = refl
sort_strings-Permᴰ (Permᴰ.cons e p) = ap₂ insert_sorted e (sort_strings-Permᴰ p)
sort_strings-Permᴰ (Permᴰ.swap {a' = c} {b' = d} {l} e f) =
    ap₂ (λ u v. insert_sorted u (insert_sorted v (sort_strings l))) e f
    ∙ insert_sorted_comm d c (sort_strings l)
sort_strings-Permᴰ (Permᴰ.trans p q) = sort_strings-Permᴰ p ∙ sort_strings-Permᴰ q

equal_lists_self : (xs : List Text) → equal_lists xs xs ≡ true
unfolding equal_lists
equal_lists_self [] = refl
equal_lists_self (x ∷ xs) = ground (arith, equal_lists_self xs)

equal_lists-eq : (xs ys : List Text) → equal_lists xs ys ≡ true → xs ≡ ys
unfolding equal_lists
equal_lists-eq [] [] h = refl
equal_lists-eq [] (y ∷ ys) h = ground (arith, h)
equal_lists-eq (x ∷ xs) [] h = ground (arith, h)
equal_lists-eq (x ∷ xs) (y ∷ ys) h =
    let e : x ≡ y = ground (arith, h) in
    let f : xs ≡ ys = equal_lists-eq xs ys (ground (arith, h)) in rw (e, f) refl

-- How often a string is in a list.
pub count : Text → List Text → ℕ
count z [] = 0
count z (x ∷ xs) = ite (Text_discrete z x) 1 0 + count z xs

count-insert_sorted :
    (z x : Text) (xs : List Text)
    → count z (insert_sorted x xs) ≡ ite (Text_discrete z x) 1 0 + count z xs
unfolding insert_sorted count
count-insert_sorted z x [] = refl
count-insert_sorted z x (y ∷ ys) = ground (arith, count-insert_sorted z x ys)

count-sort_strings : (z : Text) (xs : List Text) → count z (sort_strings xs) ≡ count z xs
unfolding sort_strings count
count-sort_strings z [] = refl
count-sort_strings z (x ∷ xs) =
    ground (arith, count-insert_sorted z x (sort_strings xs), count-sort_strings z xs)

-- Two devices made by `NewDevice` of one resource are equal if the second list is a permutation of the
-- first one; and if they are equal, each ID is as often in the one list as in the other.
pub new_device-equals :
    (hash : List Text → Text) (xs ys : List Text) (r : Text)
    → (Permᴰ xs ys → equals (new_device hash xs r) (new_device hash ys r) ≡ true)
      × (equals (new_device hash xs r) (new_device hash ys r) ≡ true
          → (z : Text) → count z xs ≡ count z ys)
unfolding new_device equals
new_device-equals hash xs ys r = (
  λ p. rw (sort_strings-Permᴰ p) (ground (arith, equal_lists_self (sort_strings ys))),
  λ e z.
      let same : sort_strings xs ≡ sort_strings ys =
        equal_lists-eq (sort_strings xs) (sort_strings ys) (ground (arith, e)) in
      sym (count-sort_strings z xs) ∙ ap (count z) same ∙ count-sort_strings z ys,
)

pub new_device-Permᴰ :
    (hash : List Text → Text) (r : Text) {xs ys : List Text}
    → Permᴰ xs ys
    → new_device hash xs r ≡ new_device hash ys r
unfolding new_device
new_device-Permᴰ hash r p =
    ap (λ l. record { hash = hash l; list = l; resource_name = r }) (sort_strings-Permᴰ p)
