-- ===== src/Manager/Parallel/Slots.antt =====
-- `Priority` of pkg/scheduler/manager/manager.go with the goroutines of `Parallelize` written out:
-- each worker writes the slots of its pieces.
use orin_device_system.Common.{
  ℕ, zero, suc, ◌+◌, ◌<◌, ℕ_discrete, ℤ, pos, List, [], ◌∷◌, none, some, ltb, Text, length,
  get_elem?, replicate, ite, ◌≡◌, refl, arith, if◌then◌else◌, ap, ap₂, Option,
}
use mathlib.Core.Option
use orin_device_system.Common.Sets.{IntSets, StringSets}
use orin_device_system.Allocator.{Allocator, Outcome, done, panic}
use orin_device_system.Pods.{Pod, build_request_orin_set}
use orin_device_system.Cache.{ScheduleCache}
use orin_device_system.Manager.{normalize, pod_allocator, score_node}
use orin_device_system.Manager.Parallel.{Pool, pieces_from, run, parallelize}
use orin_device_system.Manager.Parallel.Pieces.{weigh}
use orin_device_system.Manager.Parallel.Calls.{weigh-shift}

-- scores[i] = s
unfoldable pub set_nth : ℕ → ℤ → List ℤ → List ℤ
set_nth i s [] = []
set_nth zero s (t ∷ ts) = s ∷ ts
set_nth (suc i) s (t ∷ ts) = t ∷ set_nth i s ts

module _ ⦃S : IntSets⦄ ⦃T : StringSets⦄ where
  unfoldable pub score_slot : ℕ → List ℤ → Outcome ℤ → Outcome (List ℤ)
  score_slot i scores panic = panic
  score_slot i scores (done s) = done (set_nth i s scores)

  -- `checkNodes` of `Priority`, for piece `i`
  unfoldable pub score_piece :
      ScheduleCache
      → Option Allocator
      → S.IntSet
      → List Text
      → ℕ
      → Outcome (List ℤ)
      → Outcome (List ℤ)
  score_piece c allocator orin_request nodes i panic = panic
  score_piece c allocator orin_request nodes i (done scores) = elim (get_elem? nodes i) [
    | none ↦ panic
    | some name ↦ score_slot i scores (score_node c allocator orin_request name)
  ]

  unfoldable pub priority_pool : ScheduleCache → List Text → Pod → List ℕ → Pool (Outcome (List ℤ))
  priority_pool c nodes pod schedule =
      run (score_piece c (pod_allocator pod) (build_request_orin_set pod) nodes) schedule
        (parallelize 16 (length nodes) (done (replicate (length nodes) (pos 0))))

  -- `Priority`, for a schedule after which `wg.Wait` returns.
  unfoldable pub priority_parallel : ScheduleCache → List Text → Pod → List ℕ → Outcome (List ℤ)
  priority_parallel c nodes pod schedule = elim (priority_pool c nodes pod schedule).shared [
    | panic ↦ panic
    | done scores ↦ done (normalize 10 scores)
  ]

unfoldable pub is_piece : ℕ → ℕ → ℕ
is_piece j i = ite (ℕ_discrete i j) 1 0

pub elements_equal : (xs ys : List ℤ) → ((i : ℕ) → get_elem? xs i ≡ get_elem? ys i) → xs ≡ ys
elements_equal [] [] h = refl
elements_equal [] (y ∷ ys) h = absurd (Option.none-ne-some y (h 0))
elements_equal (x ∷ xs) [] h = absurd (Option.some-ne-none x (h 0))
elements_equal (x ∷ xs) (y ∷ ys) h =
    ap₂ (λ b bs. b ∷ bs) (Option.some-injective x y (h 0)) (elements_equal xs ys (λ i. h (suc i)))

get-set_nth :
    (i j : ℕ) (s : ℤ) (ts : List ℤ)
    → i < length ts
    → get_elem? (set_nth i s ts) j ≡ ite (ℕ_discrete i j) (some s) (get_elem? ts j)
unfolding set_nth
get-set_nth i j s [] h = absurd (omega (arith, h))
get-set_nth zero zero s (t ∷ ts) h = ground arith
get-set_nth zero (suc j) s (t ∷ ts) h = ground arith
get-set_nth (suc i) zero s (t ∷ ts) h = ground arith
get-set_nth (suc i) (suc j) s (t ∷ ts) h = ground (arith, get-set_nth i j s ts (omega (arith, h)))

pub length-set_nth : (i : ℕ) (s : ℤ) (ts : List ℤ) → length (set_nth i s ts) ≡ length ts
unfolding set_nth
length-set_nth i s [] = refl
length-set_nth zero s (t ∷ ts) = refl
length-set_nth (suc i) s (t ∷ ts) = ap suc (length-set_nth i s ts)

pub weigh-is_piece : (j n : ℕ) → j < n → 0 < weigh (is_piece j) (pieces_from 0 n)
unfolding weigh pieces_from is_piece
weigh-is_piece j zero h = absurd (omega (arith, h))
weigh-is_piece zero (suc n) h = ground arith
weigh-is_piece (suc j) (suc n) h =
    ground (arith, weigh-is_piece j n (omega (arith, h)), weigh-shift (is_piece (suc j)) 0 n)

pub get-inside :
    {A : Type 0} (xs : List A) (i : ℕ) (x : A) → get_elem? xs i ≡ some x → i < length xs
get-inside [] i x h = absurd (Option.none-ne-some x h)
get-inside (y ∷ xs) zero x h = omega arith
get-inside (y ∷ xs) (suc i) x h = omega (arith, get-inside xs i x h)

pub content_step :
    (i j w : ℕ) (s : ℤ) (r : Option ℤ) (scores start : List ℤ)
    → get_elem? scores i ≡ some s
    → i < length start
    → r ≡ (if ltb 0 w then get_elem? scores j else get_elem? (set_nth i s start) j)
    → r ≡ (if ltb 0 (is_piece j i + w) then get_elem? scores j else get_elem? start j)
unfolding is_piece
content_step i j w s r scores start slot inside h = elim (ℕ_discrete i j) [
  | yes e ↦ ground (arith, h, e, get-set_nth i j s start inside, slot, ap (get_elem? scores) e)
  | no e ↦ ground (arith, h, e, get-set_nth i j s start inside)
]
