-- ===== src/Cache/Calls.antt =====
-- The calls that change the cache of pkg/scheduler/manager/cache.go, as data, and their sequences.
use orin_device_system.Common.{List, [], ◌∷◌, Text}
use orin_device_system.Common.Sets.{IntSets, StringSets}
use orin_device_system.Pods.{Pod, Node}
use orin_device_system.Cache.{
  ScheduleCache, add_pod, delete_pod, add_node, update_node, delete_node, assume_pod, forget_pod,
}

-- A call that changes the cache.
pub data CacheCall : Type 0 where
  call_add_pod : Pod → CacheCall
  call_delete_pod : Pod → CacheCall
  call_add_node : Node → List Pod → CacheCall
  call_update_node : Node → Node → List Pod → CacheCall
  call_delete_node : Node → CacheCall
  call_assume_pod : Pod → Text → CacheCall
  call_forget_pod : Pod → Text → CacheCall

module _ ⦃S : IntSets⦄ ⦃T : StringSets⦄ where
  unfoldable pub call : CacheCall → ScheduleCache → ScheduleCache
  call (call_add_pod pod) c = (add_pod c pod).0
  call (call_delete_pod pod) c = (delete_pod c pod).0
  call (call_add_node node pods) c = (add_node c node pods).0
  call (call_update_node old_node new_node pods) c = (update_node c old_node new_node pods).0
  call (call_delete_node node) c = (delete_node c node).0
  call (call_assume_pod pod node) c = (assume_pod c pod node).0
  call (call_forget_pod pod node) c = (forget_pod c pod node).0

  unfoldable pub call_all : List CacheCall → ScheduleCache → ScheduleCache
  call_all [] c = c
  call_all (k ∷ calls) c = call_all calls (call k c)
