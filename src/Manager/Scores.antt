-- ===== src/Manager/Scores.antt =====
-- `Normalize`: scores scaled to the range of the extender.
use orin_device_system.Common.{
  ℕ, zero, suc, ◌+◌, ◌*◌, ◌/◌, ◌^◌, ◌≤◌, ◌<◌, ℤ, pos, negsuc, pos_part, neg_part, sub_ℕ, ◌≤ℤ◌,
  quot_ℕ, wrap64, wrap64_of_small, List, [], ◌∷◌, map, some, true, ltb, ◌==◌, if◌then◌else◌, All,
  length, length-map, get_elem?, ◌≡◌, ◌⊎◌, refl, arith, Bool-cases, inl, inr, ap, sym, ◌∙◌, subst,
  if_pos, if_neg, ℤ_discrete,
}
use mathlib.Core.Option
use native.Mathlib.Nat.{
  mul-le-mul_left, mul-div_cancel, le_trans, le-div_iff_mul-le, div-mul-le_self, zero-div,
}
use orin_device_system.Common.Sets.{elem}
use orin_device_system.Manager.{max_count, scale, normalize}

-- k times the score is an int64.
abbrev pub IsSmall : ℕ → ℤ → Type 0
IsSmall k s = k * (pos_part s + neg_part s) < 2 ^ 63

le-max_count : (scores : List ℤ) (m : ℕ) → m ≤ max_count scores m
unfolding max_count
le-max_count [] m = omega arith
le-max_count (s ∷ scores) m =
    ground (arith, le-max_count scores (if ltb m (pos_part s) then pos_part s else m))

max_count-ub : (scores : List ℤ) (m n : ℕ) → max_count scores m ≤ n → All (λ s. s ≤ℤ pos n) scores
unfolding max_count
max_count-ub [] m n h = tt
max_count-ub (s ∷ scores) m n h =
    let m' = if ltb m (pos_part s) then pos_part s else m in
    (ground (arith, le-max_count scores m'), max_count-ub scores m' n h)

-- The largest score is one of the scores.
max_count-elem :
    (scores : List ℤ) (m : ℕ)
    → (max_count scores m ≡ m) ⊎ (elem (pos (max_count scores m)) scores ≡ true)
unfolding max_count elem
max_count-elem [] m = inl refl
max_count-elem (pos n ∷ scores) m = ground (arith, max_count-elem scores (if ltb m n then n else m))
max_count-elem (negsuc n ∷ scores) m = ground (arith, max_count-elem scores m)

wrap64_of_negative : (n : ℕ) → n < 2 ^ 63 → wrap64 (negsuc n) ≡ negsuc n
unfolding wrap64
wrap64_of_negative n h = ground arith

scale_pos : (k m n : ℕ) → IsSmall k (pos n) → scale k m (pos n) ≡ pos (k * n / m)
unfolding scale
scale_pos k m n h = rw (wrap64_of_small (k * n) (ground arith)) refl

negated : (x m : ℕ) → x < 2 ^ 63 → quot_ℕ (wrap64 (sub_ℕ 0 x)) m ≡ sub_ℕ 0 (x / m)
unfolding wrap64
negated zero m h = ground (arith, zero-div m)
negated (suc x) m h = ground (arith, wrap64_of_negative x)

scale_neg : (k m n : ℕ) → IsSmall k (negsuc n) → scale k m (negsuc n) ≡ sub_ℕ 0 (k * suc n / m)
unfolding scale
scale_neg k m n h = negated (k * suc n) m (omega (arith, h))

div_mono : (x y m : ℕ) → 0 < m → x ≤ y → x / m ≤ y / m
div_mono x y m p h = (le-div_iff_mul-le p).1 (le_trans (div-mul-le_self x m) h)

-- The largest score becomes the largest priority.
scale-max : (k m : ℕ) → 0 < m → IsSmall k (pos m) → scale k m (pos m) ≡ pos k
scale-max k m p h = scale_pos k m m h ∙ ap pos (mul-div_cancel k p)

-- Scaling keeps the order.
scale-mono :
    (k m : ℕ) (a b : ℤ) → 0 < m → IsSmall k a → IsSmall k b → a ≤ℤ b → scale k m a ≤ℤ scale k m b
scale-mono k m (pos a) (pos b) p ha hb h =
    rw (scale_pos k m a ha, scale_pos k m b hb)
      (omega (arith, div_mono (k * a) (k * b) m p (mul-le-mul_left k (omega arith))))
scale-mono k m (negsuc a) (pos b) p ha hb h =
    rw (scale_neg k m a ha, scale_pos k m b hb) (ground arith)
scale-mono k m (pos a) (negsuc b) p ha hb h = absurd (omega arith)
scale-mono k m (negsuc a) (negsuc b) p ha hb h =
    rw (scale_neg k m a ha, scale_neg k m b hb)
      (ground (arith, div_mono (k * suc b) (k * suc a) m p (mul-le-mul_left k (omega arith))))

scale-le : (k m : ℕ) (s : ℤ) → 0 < m → IsSmall k s → s ≤ℤ pos m → scale k m s ≤ℤ pos k
scale-le k m (pos n) p hs h = rw (scale_pos k m n hs) (
    omega
      (arith, div_mono (k * n) (k * m) m p (mul-le-mul_left k (omega arith)), mul-div_cancel k p))
scale-le k m (negsuc n) p hs h = rw (scale_neg k m n hs) (ground arith)

scaled-le :
    (k m : ℕ) (scores : List ℤ)
    → 0 < m
    → All (IsSmall k) scores
    → All (λ s. s ≤ℤ pos m) scores
    → All (λ s. s ≤ℤ pos k) (map (scale k m) scores)
scaled-le k m [] p small ub = tt
scaled-le k m (s ∷ scores) p small ub =
    (scale-le k m s p small.0 ub.0, scaled-le k m scores p small.1 ub.1)

weaken-le : (k : ℕ) (scores : List ℤ) → All (λ s. s ≤ℤ pos 0) scores → All (λ s. s ≤ℤ pos k) scores
weaken-le k [] h = tt
weaken-le k (s ∷ scores) h = (omega (arith, h.0), weaken-le k scores h.1)

IsSmall-at :
    (k : ℕ) (scores : List ℤ) (i : ℕ) (a : ℤ)
    → All (IsSmall k) scores
    → get_elem? scores i ≡ some a
    → IsSmall k a
IsSmall-at k [] i a h e = absurd (Option.none-ne-some a e)
IsSmall-at k (s ∷ scores) zero a h e = subst (IsSmall k) (Option.some-injective s a e) h.0
IsSmall-at k (s ∷ scores) (suc i) a h e = IsSmall-at k scores i a h.1 e

get_elem?-map :
    (f : ℤ → ℤ) (xs : List ℤ) (i : ℕ) {a : ℤ}
    → get_elem? xs i ≡ some a
    → get_elem? (map f xs) i ≡ some (f a)
get_elem?-map f [] i e = absurd (Option.none-ne-some _ e)
get_elem?-map f (x ∷ xs) zero {a} e = ap (λ y. some (f y)) (Option.some-injective x a e)
get_elem?-map f (x ∷ xs) (suc i) e = get_elem?-map f xs i e

elem-map : (f : ℤ → ℤ) (x : ℤ) (xs : List ℤ) → elem x xs ≡ true → elem (f x) (map f xs) ≡ true
unfolding elem
elem-map f x [] h = cc
elem-map f x (y ∷ xs) h = elim (ℤ_discrete x y) [
  | yes p ↦ if_pos (ℤ_discrete (f x) (f y)) (ap f p) _ _
  | no p ↦
      let rest = elem-map f x xs (sym (if_neg (ℤ_discrete x y) p _ _) ∙ h) in ground (arith, rest)
]

le_of_elem : (n s : ℕ) (xs : List ℤ) → All (λ x. x ≤ℤ pos n) xs → elem (pos s) xs ≡ true → s ≤ n
unfolding elem
le_of_elem n s [] h e = absurd (ground (arith, e))
le_of_elem n s (x ∷ xs) h e = ground (arith, h.0, le_of_elem n s xs h.1)

-- What becomes of the score in slot `i`.
normalized_at :
    (k : ℕ) (scores : List ℤ) (i : ℕ) {a : ℤ}
    → get_elem? scores i ≡ some a
    → get_elem? (normalize k scores) i
      ≡ some (if max_count scores 0 == 0 then a else scale k (max_count scores 0) a)
unfolding normalize
normalized_at k scores i {a} e = elim (Bool-cases (max_count scores 0 == 0)) [
  | inl z ↦ rw z e
  | inr p ↦ rw p (get_elem?-map (scale k (max_count scores 0)) scores i e)
]

-- The normalized scores of a list.
pub record Normalized (k : ℕ) (scores result : List ℤ) : Type 0 where
  pub same_length : length result ≡ length scores
  pub bounded : All (λ s. s ≤ℤ pos k) result
  pub topped : (s : ℕ) → 0 < s → elem (pos s) scores ≡ true → elem (pos k) result ≡ true
  pub ordered :
      (i j : ℕ) (a b : ℤ)
      → get_elem? scores i ≡ some a
      → get_elem? scores j ≡ some b
      → a ≤ℤ b
      → (x : ℤ) × (y : ℤ) × (get_elem? result i ≡ some x) × (get_elem? result j ≡ some y) × (x ≤ℤ y)

IsSmall-of_elem :
    (k : ℕ) (s : ℤ) (xs : List ℤ) → All (IsSmall k) xs → elem s xs ≡ true → IsSmall k s
unfolding elem
IsSmall-of_elem k s [] h e = absurd (ground (arith, e))
IsSmall-of_elem k s (x ∷ xs) h e = elim (ℤ_discrete s x) [
  | yes p ↦ subst (IsSmall k) (sym p) h.0
  | no p ↦ IsSmall-of_elem k s xs h.1 (sym (if_neg (ℤ_discrete s x) p _ _) ∙ e)
]

top_score :
    (k m s : ℕ) (scores : List ℤ)
    → max_count scores 0 ≡ m
    → 0 < m
    → All (IsSmall k) scores
    → elem (pos k) (map (scale k m) scores) ≡ true
top_score k m s scores e p small = elim (max_count-elem scores 0) [
  | inl z ↦ absurd (omega (arith, e, z))
  | inr h ↦
      let h' : elem (pos m) scores ≡ true = rw (← e) h in
      rw (← scale-max k m p (IsSmall-of_elem k (pos m) scores small h'))
        (elem-map (scale k m) (pos m) scores h')
]

-- If no score times the maximum overflows, `Normalize` keeps the number of scores and raises none
-- above the maximum, reaches the maximum if some score is positive, and never puts a score below
-- one that was no higher.
pub normalize-Normalized :
    (k : ℕ) (scores : List ℤ) → All (IsSmall k) scores → Normalized k scores (normalize k scores)
unfolding normalize
normalize-Normalized k scores small =
    let m = max_count scores 0 in
    let ub = max_count-ub scores 0 m (omega arith) in
    record {
      same_length = elim (Bool-cases (m == 0)) [
        | inl z ↦ rw z refl
        | inr p ↦ rw p (length-map (scale k m) scores)
      ];
      bounded = elim (Bool-cases (m == 0)) [
        | inl z ↦ rw z (weaken-le k scores (max_count-ub scores 0 0 (ground arith)))
        | inr p ↦ rw p (scaled-le k m scores (ground arith) small ub)
      ];
      topped = λ s p h.
          let at_least = le_of_elem m s scores ub h in
          elim (Bool-cases (m == 0)) [
            | inl z ↦ absurd (ground arith)
            | inr q ↦ rw q (top_score k m s scores refl (omega arith) small)
          ];
      ordered = λ i j a b ea eb h. (
        (if m == 0 then a else scale k m a),
        (if m == 0 then b else scale k m b),
        normalized_at k scores i ea,
        normalized_at k scores j eb,
        (elim (Bool-cases (m == 0)) [
          | inl z ↦ rw z h
          | inr p ↦ rw p (
              scale-mono k m a b (ground arith) (IsSmall-at k scores i a small ea)
                (IsSmall-at k scores j b small eb) h)
        ]),
      );
    }
