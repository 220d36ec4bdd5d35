-- ===== src/Examples/Served.antt =====
-- The routes of the extender at concrete inputs.
use orin_device_system.Common.{List, [], ◌∷◌, none, some, Text, codes, ok, err, ◌≡◌, refl}
use orin_device_system.Common.ListSets.{list_sets}
use orin_device_system.Common.TextSets.{text_sets}
use orin_device_system.Manager.{Filtered}
use orin_device_system.Manager.Filter.{IsSchedule, Answer}
use orin_device_system.Manager.Bind.{BindError}
use orin_device_system.Routes.{
  ExtenderArgs, ExtenderFilterResult, HostPriority, ExtenderBindingArgs,
}
use orin_device_system.Routes.Http.{Codec, Exchange, fresh, answered, panicked}
use orin_device_system.Routes.Serve.{
  Service, Router, serve, extender_router, predicates_prefix, priorities_prefix, bind_path,
}
use orin_device_system.Routes.Served.{json_response, served_predicates, served_bad_json}
use orin_device_system.Examples.Data.{small_pod, node_name_of_rack}
use orin_device_system.Examples.Caches.{rack_cache, small_pod_allocator, nodes_sane}
use orin_device_system.Examples.Binding.{server, retry}

-- A codec of requests that are all for the small pod, and of results as one text.
abbrev filters : Codec ExtenderArgs ExtenderFilterResult
filters = record {
  JsonError = Unit {0};
  decode = λ text. ok (record { pod = small_pod; node_names = some (node_name_of_rack ∷ []) });
  encode = λ r. ok (codes "{}");
  error = λ e. codes "EOF";
}

-- A codec that decodes nothing.
abbrev no_json : (A B : Type 0) → Codec A B
no_json A B = record {
  JsonError = Unit {0};
  decode = λ text. err tt;
  encode = λ r. ok (codes "{}");
  error = λ e. codes "EOF";
}

abbrev no_message : BindError (Unit {0}) → Text
no_message e = codes "error"

abbrev service : Service (server none) no_message retry
service = record { world = small_pod; cache = rack_cache }

abbrev router :
    Codec ExtenderArgs ExtenderFilterResult → Router (Service (server none) no_message retry)
router codec =
    extender_router (server none) no_message retry (codes "v1") codec
      (no_json ExtenderArgs (List HostPriority)) (no_json ExtenderBindingArgs Text)
      (node_name_of_rack ∷ [])

only_node : IsSchedule rack_cache (node_name_of_rack ∷ []) (node_name_of_rack ∷ []) small_pod
only_node = record { same_nodes = λ x. refl; same_length = refl }

served_predicates_example :
    (r : Filtered) × (x : Exchange) × (serve
        (router filters)
        (codes "POST")
        predicates_prefix
        (some (codes "{}"))
        service
      ≡ some (answered service x))
    × (x.response ≡ json_response (codes "{}"))
    × Answer rack_cache (node_name_of_rack ∷ []) (node_name_of_rack ∷ []) small_pod r
served_predicates_example =
    served_predicates (server none) no_message retry (codes "v1") filters
      (no_json ExtenderArgs (List HostPriority)) (no_json ExtenderBindingArgs Text)
      (node_name_of_rack ∷ []) service (codes "{}") small_pod (node_name_of_rack ∷ [])
      (λ r. codes "{}") refl (λ r. refl) small_pod_allocator nodes_sane only_node

served_bad_json_example :
    let r = router (no_json ExtenderArgs ExtenderFilterResult) in
    ((x : Exchange) × (serve r (codes "POST") predicates_prefix (some []) service
        ≡ some (answered service x))
      × (x.response ≡ json_response (codes "{}")))
    × ((x : Exchange) × (serve r (codes "POST") bind_path (some []) service
          ≡ some (answered service x))
        × (x.response ≡ json_response (codes "{}")))
    × ((x : Exchange) × (serve r (codes "POST") priorities_prefix (some []) service
          ≡ some (panicked x))
        × (x.response ≡ fresh.response))
served_bad_json_example =
    served_bad_json (server none) no_message retry (codes "v1")
      (no_json ExtenderArgs ExtenderFilterResult) (no_json ExtenderArgs (List HostPriority))
      (no_json ExtenderBindingArgs Text) (node_name_of_rack ∷ []) service [] tt tt tt
      (λ r. codes "{}") (λ r. codes "{}") refl refl refl (λ r. refl) (λ r. refl)
