-- ===== src/Examples/Control.antt =====
-- The controller and the handlers of the extender at concrete inputs.
use orin_device_system.Common.{
  pos, List, [], ◌∷◌, none, some, ite, Text, Text_discrete, ◌⊎◌, codes, lookup, ok, ◌≡◌, ◌≢◌, refl,
  arith,
}
use orin_device_system.Common.ListSets.{list_sets}
use orin_device_system.Common.TextSets.{text_sets}
use orin_device_system.Names.{parse_int, parse_digits, scan, in_range}
use orin_device_system.Pods.{Pod, pod_succeeded, build_request_orin_set, is_completed_pod}
use orin_device_system.Pods.Annotations.{bind_board}
use orin_device_system.NodeInfo.{new_node_info}
use orin_device_system.Cache.{ScheduleCache, assume_pod}
use orin_device_system.Controller.{
  Informers, pod_object, queue_add, queue_forget, queue_done, update_pod_in_cache,
  process_next_work_item, finish_item, run_worker, sync_pod, sync_found,
}
use orin_device_system.Controller.Completion.{Completes, IsGone, completed_pod-IsGone}
use orin_device_system.Controller.Worker.{AllFail, StopsAt, retries, run_worker-stops}
use orin_device_system.Examples.Data.{rack_node, node_name_of_rack, bound_pod}
use orin_device_system.Examples.Caches.{rack_cache, bound_pod_held}

-- The pod after it has completed.
abbrev finished_pod : Pod
finished_pod = record bound_pod { phase = pod_succeeded; resource_version = codes "2" }

-- Informers that have the completed pod under one key.
abbrev pub informers : Informers
informers = record {
  key_func = λ pod. some (codes "d/p");
  split_meta_namespace_key = λ key. some (codes "d", codes "p");
  get_pod = λ ns name. ok finished_pod;
  list_pods = some (finished_pod ∷ []);
  get_node_from_apiserver = λ name. none;
}

abbrev pub held_cache : ScheduleCache
held_cache = (assume_pod rack_cache bound_pod node_name_of_rack).0

finished_pod-Completes : Completes bound_pod finished_pod (pos 1)
unfolding bind_board lookup Text_discrete parse_int parse_digits scan in_range
    build_request_orin_set is_completed_pod
finished_pod-Completes = record {
  same_uid = refl;
  same_request = refl;
  bound = refl;
  named = refl;
  completed = refl;
}

new_version : bound_pod.resource_version ≢ finished_pod.resource_version
new_version e = ground (arith, e)

completed_pod-IsGone_example :
    (update_pod_in_cache informers held_cache (pod_object bound_pod) (pod_object finished_pod)
      ≡ queue_add (codes "d/p") ∷ [])
    × ((process_next_work_item informers held_cache (some (codes "d/p"))).2
        ≡ queue_forget (codes "d/p") ∷ queue_done (codes "d/p") ∷ [])
    × IsGone
        (process_next_work_item informers held_cache (some (codes "d/p"))).0
        bound_pod_held.info
        finished_pod
        (pos 1)
completed_pod-IsGone_example =
    completed_pod-IsGone held_cache (new_node_info rack_node []) bound_pod finished_pod (pos 1)
      bound_pod_held finished_pod-Completes informers bound_pod (codes "d/p") (codes "d")
      (codes "p") refl new_version refl refl refl

-- Informers that cannot split one of the keys.
abbrev splitting : Informers
splitting = record informers {
  split_meta_namespace_key =
      λ key. ite (Text_discrete key (codes "d/p")) (some (codes "d", codes "p")) none;
}

abbrev queued : List Text
queued = codes "a/b/c" ∷ codes "d/p" ∷ codes "d/q" ∷ []

run_worker-stops_example :
    let r = run_worker splitting held_cache queued in
    (AllFail splitting held_cache queued r.0 × (r.1 ≡ []) × (r.2 ≡ retries queued))
    ⊎ StopsAt splitting held_cache queued r
run_worker-stops_example = run_worker-stops splitting held_cache queued

one_key_left : (run_worker splitting held_cache queued).1 ≡ codes "d/q" ∷ []
unfolding run_worker process_next_work_item finish_item sync_pod sync_found is_completed_pod
    Text_discrete
one_key_left = refl
