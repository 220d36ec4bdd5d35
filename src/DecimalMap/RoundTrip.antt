-- ===== src/DecimalMap/RoundTrip.antt =====
-- `Parse` after `BuildDecimalMap` of pkg/scheduler/manager/decimalmap.go.
use orin_device_system.Common.{
  ℕ, zero, suc, ◌+◌, ◌*◌, ◌/◌, ◌%◌, ◌^◌, ◌≤◌, ◌<◌, ℤ, ℤ_discrete, pos, negsuc, ◌+ℤ◌, wrap64,
  wrap64_of_small, List, [], ◌∷◌, Bool, true, false, ◌&&◌, ◌||◌, ltb, leb, if◌then◌else◌, Text, ok,
  ◌≡◌, refl, arith, ite, All, Bool-cases, ◌∙◌, ap, ◌++◌, ◌≢◌, ℕ_discrete, sym, append-nil, ◌++◌,
}
use orin_device_system.Common.Sets.{IntSets, elem}
use orin_device_system.Names.{digits_from, append_reversed, format_uint, format_int}
use orin_device_system.DecimalMap.{
  new_decimal_map, add_powers, parse_bits, parse, build_decimal_map,
}
use orin_device_system.DecimalMap.Weight.{weight, weight-lt, InWindow, add_powers-weight}

-- An ID that lies in the window of `n` digits from `j` on.
abbrev pub in_window : ℕ → ℕ → ℤ → Bool
in_window j n (pos i) = leb j i && ltb i (j + n)
in_window j n (negsuc i) = false

weight-zero :
    (xs : List ℤ) (j n : ℕ) (x : ℤ) → weight xs j n ≡ 0 → (in_window j n x && elem x xs) ≡ false
unfolding weight elem
weight-zero xs j n (negsuc i) h = refl
weight-zero xs j zero (pos i) h = ground arith
weight-zero xs j (suc n) (pos i) h = ground (arith, weight-zero xs (suc j) n (pos i))

window_step :
    (xs : List ℤ) (j n : ℕ) (x : ℤ)
    → (in_window j (suc n) x && elem x xs)
      ≡ ite (ℤ_discrete x (pos j)) (elem (pos j) xs) (in_window (suc j) n x && elem x xs)
window_step xs j n (pos i) = ground arith
window_step xs j n (negsuc i) = ground arith

bit-le : (b : Bool) → (if b then 1 else 0) ≤ 1
bit-le true = omega arith
bit-le false = omega arith

digits_small :
    (fuel : ℕ) (b : Bool) (w : ℕ)
    → w ≡ 0
    → digits_from (suc fuel) ((if b then 1 else 0) + 10 * w) ≡ (b'0' + (if b then 1 else 0)) ∷ []
unfolding digits_from
digits_small fuel true w h = ground arith
digits_small fuel false w h = ground arith

digits_large :
    (fuel : ℕ) (b : Bool) (w : ℕ)
    → w ≢ 0
    → digits_from (suc fuel) ((if b then 1 else 0) + 10 * w)
      ≡ (b'0' + (if b then 1 else 0)) ∷ digits_from fuel w
unfolding digits_from
digits_large fuel b w h =
    let n = (if b then 1 else 0) + 10 * w in
    let q : n / 10 ≡ w = omega (arith, bit-le b) in
    let r : n % 10 ≡ (if b then 1 else 0) = omega (arith, bit-le b) in
    ground (arith, q, r, bit-le b)

digits_fit : (b w fuel : ℕ) → w ≢ 0 → b + 10 * w < suc fuel → w < fuel
digits_fit b w fuel h e = omega arith

pub sum_fits : (k m j : ℕ) → j ≡ k + m → j < 2 ^ 63 → wrap64 (pos k +ℤ pos m) ≡ pos j
unfolding ◌+ℤ◌
sum_fits k m j e h = ground (arith, wrap64_of_small (k + m))

append_reversed_twice :
    (s out rest : Text)
    → append_reversed (append_reversed s out) rest ≡ append_reversed out (s ++ rest)
unfolding append_reversed
append_reversed_twice [] out rest = refl
append_reversed_twice (c ∷ s) out rest = append_reversed_twice s (c ∷ out) rest

module _ ⦃S : IntSets⦄ where
  window_empty :
      (xs : List ℤ) (j : ℕ) (x : ℤ) (b : Bool) → b ≡ (b || in_window j zero x && elem x xs)
  window_empty xs j (pos i) b = ground arith
  window_empty xs j (negsuc i) b = ground arith

  -- The set after one digit.
  abbrev insert_here : ℕ → Bool → S.IntSet → S.IntSet
  insert_here j b res = if b then S.insert (pos j) res else res

  has-insert_here :
      (xs : List ℤ) (j n : ℕ) (x : ℤ) (res : S.IntSet)
      → (S.has x (insert_here j (elem (pos j) xs) res) || in_window (suc j) n x && elem x xs)
        ≡ (S.has x res || in_window j (suc n) x && elem x xs)
  has-insert_here xs j n x res = ground (arith, window_step xs j n x, S.has-insert x (pos j) res)

  bit_step :
      (m k j : ℕ) (src_str rest : Text) (b : Bool) (res : S.IntSet)
      → wrap64 (pos k +ℤ pos m) ≡ pos j
      → parse_bits (pos m) k ((b'0' + (if b then 1 else 0)) ∷ rest) res src_str
        ≡ parse_bits (pos m) (suc k) rest (insert_here j b res) src_str
  unfolding parse_bits
  bit_step m k j src_str rest b res e = ground arith

  parse_bits-weight :
      (m : ℕ) (src_str : Text) (xs : List ℤ) (j k n fuel : ℕ) (res : S.IntSet)
      → j ≡ k + m
      → j + n < 2 ^ 63
      → weight xs j n < fuel
      → (t : S.IntSet) × (parse_bits (pos m) k (digits_from fuel (weight xs j n)) res src_str
          ≡ ok t)
        × ((x : ℤ) → S.has x t ≡ (S.has x res || in_window j n x && elem x xs))
  unfolding digits_from weight
  parse_bits-weight m src_str xs j k n zero res e b f = absurd (omega arith)
  parse_bits-weight m src_str xs j k zero (suc fuel) res e b f =
      (res, unfold parse_bits in refl, λ x. window_empty xs j x (S.has x res))
  parse_bits-weight m src_str xs j k (suc n) (suc fuel) res e b f =
      let bit = elem (pos j) xs in
      let w = weight xs (suc j) n in
      let res' = insert_here j bit res in
      let here : wrap64 (pos k +ℤ pos m) ≡ pos j = sum_fits k m j e (omega arith) in
      elim (ℕ_discrete w 0) [
        | yes w0 ↦ (
          res',
          rw (digits_small fuel bit w w0)
              (bit_step m k j src_str [] bit res here ∙ unfold parse_bits in refl),
          λ x. ground (arith, has-insert_here xs j n x res, weight-zero xs (suc j) n x w0),
        )
        | no w0 ↦
            let (t, parsed, holds) =
              parse_bits-weight m src_str xs (suc j) (suc k) n fuel res' (omega arith) (omega arith)
                (digits_fit (if bit then 1 else 0) w fuel w0 f) in
            (
              t,
              rw (digits_large fuel bit w w0)
                  (bit_step m k j src_str (digits_from fuel w) bit res here ∙ parsed),
              λ x. holds x ∙ has-insert_here xs j n x res,
            )
      ]

  All-of_elem :
      (m n : ℕ) (xs : List ℤ)
      → ((x : ℤ) → elem x xs ≡ true → InWindow m n x)
      → All (InWindow m n) xs
  unfolding elem
  All-of_elem m n [] h = tt
  All-of_elem m n (y ∷ xs) h = (h y (ground arith), All-of_elem m n xs (λ x e. h x (ground arith)))

  elem-in_window :
      (m n : ℕ) (x : ℤ) (b : Bool) → (b ≡ true → InWindow m n x) → (in_window m n x && b) ≡ b
  elem-in_window m n (pos i) b h = ground (arith, Bool-cases b, h)
  elem-in_window m n (negsuc i) true h = absurd (h refl)
  elem-in_window m n (negsuc i) false h = refl

  -- For a start bit below 2^62, `Parse` of what `BuildDecimalMap` makes of a set of IDs, each of
  -- them one of the 19 IDs from the start bit on, succeeds and gives a set with the same members.
  pub parse-build_decimal_map :
      (huge : ℕ → ℤ) (m : ℕ) (set : S.IntSet)
      → m < 2 ^ 62
      → ((x : ℤ) → S.has x set ≡ true → InWindow m 19 x)
      → (t : S.IntSet) × ((parse (new_decimal_map (build_decimal_map huge set (pos m)) (pos m))).1
          ≡ ok t)
        × ((x : ℤ) → S.has x t ≡ S.has x set)
  unfolding parse new_decimal_map build_decimal_map format_int format_uint
  parse-build_decimal_map huge m set hm h =
      let xs = S.unsorted_list set in
      let inside : (x : ℤ) → elem x xs ≡ true → InWindow m 19 x =
        λ x e. h x (sym (S.elem-unsorted_list x set) ∙ e) in
      let w = weight xs m 19 in
      let small : w < 2 ^ 63 = omega (arith, weight-lt xs m 19) in
      let written : add_powers huge (pos m) xs (pos 0) ≡ pos w =
        add_powers-weight huge m xs 0 hm (All-of_elem m 19 xs inside) (S.unsorted_list-Nodup set)
          (omega arith)
        ∙ ap pos (omega arith) in
      let (t, parsed, holds) =
        parse_bits-weight m (format_uint w) xs m 0 19 (suc w) S.empty (omega arith) (omega arith)
          (omega arith) in
      (
        t,
        rw written (
            rw (append_reversed_twice (digits_from (suc w) w) [] [])
              (unfold append_reversed in rw (append-nil (digits_from (suc w) w)) parsed)),
        λ x. ground (
          arith,
          holds x,
          S.has-empty x,
          S.elem-unsorted_list x set,
          elem-in_window m 19 x (elem x xs) (inside x),
        ),
      )
