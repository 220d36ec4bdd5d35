-- ===== src/Examples/Pool.antt =====
-- The goroutines of `Parallelize` at concrete schedules.
use orin_device_system.Common.{
  ℕ, ◌+◌, ◌*◌, ◌≤◌, List, [], ◌∷◌, true, Text, codes, length, ltb, if◌then◌else◌, ◌≡◌, refl,
}
use orin_device_system.Common.ListSets.{list_sets}
use orin_device_system.Common.TextSets.{text_sets}
use orin_device_system.Manager.{predicate, priority}
use orin_device_system.Manager.Filter.{IsSchedule}
use orin_device_system.Manager.Parallel.{
  run, turn, advance_nth, advance, parallelize, pieces_from, all_returned,
}
use orin_device_system.Manager.Parallel.Progress.{IsBusy, parallelize-ends}
use orin_device_system.Manager.Parallel.Calls.{
  predicate_pool, predicate_parallel, predicate_parallel-predicate,
}
use orin_device_system.Manager.Parallel.Slots.{priority_pool, priority_parallel}
use orin_device_system.Manager.Parallel.Scores.{priority_parallel-priority}
use orin_device_system.Examples.Data.{small_pod, node_name_of_rack}
use orin_device_system.Examples.Caches.{rack_cache}

-- The work of a piece: its number is noted.
abbrev note : ℕ → List ℕ → List ℕ
note i log = i ∷ log

parallelize-ends_example :
    let p = parallelize 2 3 [] in
    let bound = 2 * 3 + (if ltb 3 2 then 3 else 2) in
    ((schedule : List ℕ) × IsBusy note schedule p
      × (all_returned (run note schedule p).workers ≡ true))
    × ((schedule : List ℕ)
        → IsBusy note schedule p
        → (length schedule ≤ bound)
          × ((length schedule ≡ bound) → all_returned (run note schedule p).workers ≡ true))
parallelize-ends_example = parallelize-ends note 2 3 []

-- Two workers for two nodes: the second does both pieces.
abbrev pub second_first : List ℕ
second_first = 1 ∷ 1 ∷ 1 ∷ 1 ∷ 1 ∷ 0 ∷ []

abbrev pub nodes : List Text
nodes = node_name_of_rack ∷ codes "m" ∷ []

pool_returned : all_returned (predicate_pool rack_cache nodes small_pod second_first).workers ≡ true
unfolding predicate_pool run turn advance_nth advance parallelize pieces_from all_returned
pool_returned = refl

predicate_parallel-predicate_example :
    (order : List Text) × IsSchedule rack_cache nodes order small_pod
    × (predicate_parallel rack_cache nodes small_pod second_first
        ≡ predicate rack_cache nodes order small_pod)
predicate_parallel-predicate_example =
    predicate_parallel-predicate rack_cache nodes small_pod second_first pool_returned

scores_returned :
    all_returned (priority_pool rack_cache nodes small_pod second_first).workers ≡ true
unfolding priority_pool run turn advance_nth advance parallelize pieces_from all_returned
scores_returned = refl

priority_parallel-priority_example :
    priority_parallel rack_cache nodes small_pod second_first ≡ priority rack_cache nodes small_pod
priority_parallel-priority_example =
    priority_parallel-priority rack_cache nodes small_pod second_first scores_returned
