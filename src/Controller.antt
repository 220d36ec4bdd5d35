-- ===== src/Controller.antt =====
-- pkg/scheduler/manager/controller.go: the handlers of informer events and the worker of the pod
-- queue. The listers, the key functions and the API server are arguments; what the code calls on the
-- rate limited queue is returned as a list of calls.
pub mod Completion
pub mod Worker
pub mod Rounds
use orin_device_system.Common.{
  List, [], ◌∷◌, ◌++◌, Option, none, some, Bool, true, false, ◌&&◌, not, Text, Text_discrete,
  lookup, Result, ok, err, ite, if◌then◌else◌,
}
use orin_device_system.Common.Sets.{IntSets, StringSets}
use orin_device_system.Allocator.{Outcome, done, panic}
use orin_device_system.Pods.{
  Pod, Node, board_annotation, is_empty, is_binding_board, is_completed_pod, is_orin_pod,
}
use orin_device_system.Cache.{
  ScheduleCache, CacheError, add_pod, delete_pod, add_node, get_node, update_node, delete_node,
  known_pod,
}

-- An `interface{}` that an informer hands to a handler.
pub data InformerObject : Type 0 where
  pod_object : Pod → InformerObject
  node_object : Node → InformerObject
  deleted_final_state_unknown : InformerObject → InformerObject
  other_object : InformerObject

pub data QueueCall : Type 0 where
  queue_add queue_forget queue_done queue_add_rate_limited : Text → QueueCall

pub data ListerError : Type 0 where
  pod_not_found other_lister_error : ListerError

pub data SyncError : Type 0 where
  invalid_key : SyncError
  sync_cache_error : CacheError → SyncError

-- What the controller calls of client-go: the key of a pod and its parts (`none` is an error), the
-- pod lister, and the node that the API server has.
pub record Informers : Type 0 where
  pub key_func : Pod → Option Text
  pub split_meta_namespace_key : Text → Option (Text × Text)
  pub get_pod : Text → Text → Result ListerError Pod
  pub list_pods : Option (List Pod)
  pub get_node_from_apiserver : Text → Option Node

-- the `FilterFunc` of the pod informer
unfoldable pub filter_pod : InformerObject → Bool
filter_pod (pod_object pod) = is_orin_pod pod
filter_pod (deleted_final_state_unknown (pod_object pod)) = is_orin_pod pod
filter_pod (deleted_final_state_unknown _) = false
filter_pod (node_object node) = false
filter_pod other_object = false

unfoldable pub active_pods : Text → List Pod → List Pod
active_pods node_name [] = []
active_pods node_name (p ∷ ps) =
    let rest = active_pods node_name ps in
    ite (Text_discrete p.node_name node_name)
      (if not (is_completed_pod p) && is_binding_board p then p ∷ rest else rest) rest

module _ (informers : Informers) where
  open informers use {
    key_func, split_meta_namespace_key, get_pod, list_pods, get_node_from_apiserver,
  }

  -- Controller.getActivePodInNode; its callers go on with no pods after an error.
  unfoldable pub get_active_pod_in_node : Text → List Pod
  get_active_pod_in_node node_name = elim list_pods [
    | none ↦ []
    | some pods ↦ active_pods node_name pods
  ]

  unfoldable pub enqueue : Pod → List QueueCall
  enqueue pod = elim (key_func pod) [ none ↦ [] | some pod_key ↦ queue_add pod_key ∷ [] ]

  -- Controller.addPodToCache
  unfoldable pub add_pod_to_cache : InformerObject → List QueueCall
  add_pod_to_cache (pod_object pod) = enqueue pod
  add_pod_to_cache _ = []

module _ ⦃S : IntSets⦄ ⦃T : StringSets⦄ (informers : Informers) where
  open informers use {
    key_func, split_meta_namespace_key, get_pod, list_pods, get_node_from_apiserver,
  }

  -- Controller.updatePodInCache
  unfoldable pub update_pod_in_cache :
      ScheduleCache → InformerObject → InformerObject → List QueueCall
  update_pod_in_cache c (pod_object old_pod) (pod_object new_pod) =
      ite (Text_discrete old_pod.resource_version new_pod.resource_version) [] (
        if known_pod c old_pod && is_completed_pod new_pod && is_binding_board new_pod
        then enqueue informers new_pod
        else [])
  update_pod_in_cache c _ _ = []

  -- Controller.deletePodFromCache, which drops the error of `releasePod`
  unfoldable pub delete_pod_from_cache : ScheduleCache → InformerObject → ScheduleCache
  delete_pod_from_cache c (pod_object pod) = (delete_pod c pod).0
  delete_pod_from_cache c (deleted_final_state_unknown (pod_object pod)) = (delete_pod c pod).0
  delete_pod_from_cache c _ = c

  -- `addNodeToCache`, with the node at hand; errors are only logged.
  unfoldable pub add_node_object : ScheduleCache → Node → ScheduleCache
  add_node_object c node = elim node.deletion_timestamp [
    | some t ↦ (delete_node c node).0
    | none ↦ (add_node c node (get_active_pod_in_node informers node.name)).0
  ]

  -- `updateNodeInCache`, with the nodes at hand
  unfoldable pub update_node_object : ScheduleCache → Node → Node → ScheduleCache
  update_node_object c old_node new_node = elim new_node.deletion_timestamp [
    | some t ↦ (delete_node c new_node).0
    | none ↦ (update_node c old_node new_node (get_active_pod_in_node informers new_node.name)).0
  ]

  -- Controller.addNodeToCache; the conversion of another object panics.
  unfoldable pub add_node_to_cache : ScheduleCache → InformerObject → Outcome ScheduleCache
  add_node_to_cache c (node_object node) = done (add_node_object c node)
  add_node_to_cache c _ = panic

  -- Controller.updateNodeInCache
  unfoldable pub update_node_in_cache :
      ScheduleCache → InformerObject → InformerObject → Outcome ScheduleCache
  update_node_in_cache c (node_object old_node) (node_object new_node) =
      done (update_node_object c old_node new_node)
  update_node_in_cache c _ _ = panic

  -- Controller.deleteNodeFromCache
  unfoldable pub delete_node_from_cache : ScheduleCache → InformerObject → ScheduleCache
  delete_node_from_cache c (node_object node) = (delete_node c node).0
  delete_node_from_cache c (deleted_final_state_unknown (node_object node)) = (delete_node c node).0
  delete_node_from_cache c _ = c

  -- `assignPod`, where the node is missing in the cache
  unfoldable pub with_missing_node : ScheduleCache → Pod → ScheduleCache
  with_missing_node c pod = elim (get_node_from_apiserver pod.node_name) [
    | none ↦ c
    | some node ↦ (add_node c node (get_active_pod_in_node informers node.name)).0
  ]

  -- Controller.assignPod
  unfoldable pub assign_pod : ScheduleCache → Pod → ScheduleCache × Option CacheError
  assign_pod c pod =
      if is_binding_board pod
      then (elim (get_node c pod.node_name) [
        | some ni ↦ add_pod c pod
        | none ↦ add_pod (with_missing_node c pod) pod
      ])
      else (c, none)

  unfoldable pub sync_assigned :
      ScheduleCache × Option CacheError → ScheduleCache × Bool × Option SyncError
  sync_assigned (c, none) = (c, true, none)
  sync_assigned (c, some e) = (c, false, some (sync_cache_error e))

  -- `syncPod`, after its call of the lister
  unfoldable pub sync_found :
      ScheduleCache → Result ListerError Pod → ScheduleCache × Bool × Option SyncError
  sync_found c (err e) = (c, true, none)
  sync_found c (ok pod) =
      if is_completed_pod pod
      then ((delete_pod c pod).0, true, none)
      else if is_empty pod.node_name
      then (c, true, none)
      else sync_assigned (assign_pod c pod)

  -- Controller.syncPod: whether to forget the key, and the error
  unfoldable pub sync_pod : ScheduleCache → Text → ScheduleCache × Bool × Option SyncError
  sync_pod c key = elim (split_meta_namespace_key key) [
    | none ↦ (c, false, some invalid_key)
    | some (ns, name) ↦ sync_found c (get_pod ns name)
  ]

  -- `processNextWorkItem`, after its call of `syncPod`
  unfoldable pub finish_item :
      Text → ScheduleCache × Bool × Option SyncError → ScheduleCache × Bool × List QueueCall
  finish_item key (c, forget, none) =
      (c, false, (if forget then queue_forget key ∷ [] else []) ++ queue_done key ∷ [])
  finish_item key (c, forget, some e) = (c, true, queue_add_rate_limited key ∷ queue_done key ∷ [])

  -- Controller.processNextWorkItem: whether to go on, and the calls on the queue; `none` says that
  -- the queue was shut down.
  unfoldable pub process_next_work_item :
      ScheduleCache → Option Text → ScheduleCache × Bool × List QueueCall
  process_next_work_item c none = (c, false, [])
  process_next_work_item c (some key) = finish_item key (sync_pod c key)

  -- Controller.runWorker, over the keys that the queue gives out: the cache, the keys that are left
  -- when it returns, and the calls on the queue.
  unfoldable pub run_worker : ScheduleCache → List Text → ScheduleCache × List Text × List QueueCall
  run_worker c [] = let (c', go_on, calls) = process_next_work_item c none in (c', [], calls)
  run_worker c (key ∷ keys) =
      let (c', go_on, calls) = process_next_work_item c (some key) in
      let (c'', left, more) = run_worker c' keys in
      if go_on then (c'', left, calls ++ more) else (c', keys, calls)
