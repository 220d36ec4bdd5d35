-- ===== src/Common/Maps.antt =====
-- A Go map as an association list. The order of the list is one order in which `range` may visit
-- the entries: a theorem about every list with distinct keys covers every order.
use mathlib.Core.Path.{◌≡◌, refl}
use mathlib.Core.Logic.{ite}
use mathlib.Core.List.{List, [], ◌∷◌, lookup}
use mathlib.Core.Option.{Option, none, some}
use mathlib.Core.Bool.{Bool, true, false}
use native.Mathlib.Omega.{arith}

abbrev pub is_some {ℓ} : {A : Type ℓ} → Option A → Bool
is_some none = false
is_some (some a) = true

-- No key stands twice.
abbrev pub Distinct {ℓ} : {K V : Type ℓ} → Discrete K → List (K × V) → Type ℓ
Distinct dec [] = Unit
Distinct dec ((k, v) ∷ m) = (lookup dec k m ≡ none) × Distinct dec m

module _ {ℓ} {K V : Type ℓ} (dec : Discrete K) where
  -- m[k] = v
  unfoldable pub insert : K → V → List (K × V) → List (K × V)
  insert k v [] = (k, v) ∷ []
  insert k v ((j, w) ∷ m) = ite (dec j k) ((k, v) ∷ m) ((j, w) ∷ insert k v m)

  -- delete(m, k)
  unfoldable pub delete : K → List (K × V) → List (K × V)
  delete k [] = []
  delete k ((j, w) ∷ m) = ite (dec j k) (delete k m) ((j, w) ∷ delete k m)

  -- _, ok := m[k]
  abbrev pub has_key : K → List (K × V) → Bool
  has_key k m = is_some (lookup dec k m)

  pub lookup-insert :
      (k j : K) (v : V) (m : List (K × V))
      → lookup dec j (insert k v m) ≡ ite (dec j k) (some v) (lookup dec j m)
  unfolding insert lookup
  lookup-insert k j v [] = ground arith
  lookup-insert k j v ((i, w) ∷ m) = ground (arith, lookup-insert k j v m)

  pub lookup-delete :
      (k j : K) (m : List (K × V)) → lookup dec j (delete k m) ≡ ite (dec j k) none (lookup dec j m)
  unfolding delete lookup
  lookup-delete k j [] = ground arith
  lookup-delete k j ((i, w) ∷ m) = ground (arith, lookup-delete k j m)

  pub insert-Distinct :
      (k : K) (v : V) (m : List (K × V)) → Distinct dec m → Distinct dec (insert k v m)
  unfolding insert lookup
  insert-Distinct k v [] d = (refl, tt)
  insert-Distinct k v ((i, w) ∷ m) d =
      ground (arith, insert-Distinct k v m d.1, lookup-insert k i v m)

  pub delete-Distinct : (k : K) (m : List (K × V)) → Distinct dec m → Distinct dec (delete k m)
  unfolding delete lookup
  delete-Distinct k [] d = tt
  delete-Distinct k ((i, w) ∷ m) d = ground (arith, delete-Distinct k m d.1, lookup-delete k i m)
