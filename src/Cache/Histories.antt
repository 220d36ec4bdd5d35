-- ===== src/Cache/Histories.antt =====
-- Sequences of any calls of the cache of pkg/scheduler/manager/cache.go, failing ones included.
use orin_device_system.Common.{List, [], ◌∷◌, lookup}
use mathlib.Core.Option
use orin_device_system.Common.Sets.{IntSets, StringSets}
use orin_device_system.NodeInfo.{new_node_info}
use orin_device_system.NodeInfo.Identity.{no_pods-IsKeyed, new_node_info-IsNamed}
use orin_device_system.Cache.{ScheduleCache, new_schedule_cache, add_node}
use orin_device_system.Cache.Calls.{
  CacheCall, call_add_pod, call_delete_pod, call_add_node, call_update_node, call_delete_node,
  call_assume_pod, call_forget_pod, call, call_all,
}
use orin_device_system.Cache.WellFormed.{
  IsWellFormed, add_pod-IsWellFormed, assume_pod-IsWellFormed, delete_node-IsWellFormed,
  delete_pod-IsWellFormed, forget_pod-IsWellFormed, update_node-IsWellFormed,
  with_node-IsWellFormed,
}

module _ ⦃S : IntSets⦄ ⦃T : StringSets⦄ where
  call-IsWellFormed : (k : CacheCall) (c : ScheduleCache) → IsWellFormed c → IsWellFormed (call k c)
  unfolding call add_node
  call-IsWellFormed (call_add_pod pod) c w = add_pod-IsWellFormed c pod w
  call-IsWellFormed (call_delete_pod pod) c w = delete_pod-IsWellFormed c pod w
  call-IsWellFormed (call_add_node node pods) c w =
      with_node-IsWellFormed c node.name (new_node_info node pods) (new_node_info-IsNamed node pods)
        w
  call-IsWellFormed (call_update_node old_node new_node pods) c w =
      update_node-IsWellFormed c old_node new_node pods w
  call-IsWellFormed (call_delete_node node) c w = delete_node-IsWellFormed c node w
  call-IsWellFormed (call_assume_pod pod node) c w = assume_pod-IsWellFormed c pod node w
  call-IsWellFormed (call_forget_pod pod node) c w = forget_pod-IsWellFormed c pod node w

  call_all-kept :
      (calls : List CacheCall) (c : ScheduleCache)
      → IsWellFormed c
      → IsWellFormed (call_all calls c)
  unfolding call_all
  call_all-kept [] c w = w
  call_all-kept (k ∷ calls) c w = call_all-kept calls (call k c) (call-IsWellFormed k c w)

  -- After any sequence of calls from the empty cache, failing ones included: no node is cached
  -- twice, each is cached under its own name, has exactly the boards that its capacity names, with
  -- the orins of its capacity at least, and its pods are recorded under their own UIDs, as are the
  -- pods that the cache knows.
  pub call_all-IsWellFormed :
      (calls : List CacheCall) → IsWellFormed (call_all calls new_schedule_cache)
  unfolding new_schedule_cache lookup
  call_all-IsWellFormed calls = call_all-kept calls new_schedule_cache (record {
    distinct = tt;
    nodes = λ name ni e. absurd (Option.none-ne-some ni e);
    known = no_pods-IsKeyed;
  })
