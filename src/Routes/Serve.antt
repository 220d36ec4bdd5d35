-- ===== src/Routes/Serve.antt =====
-- pkg/scheduler/routes/routes.go: the three routes of the extender, from the request's body to the
-- response. The body of a request, which may be nil, is an optional text.
use orin_device_system.Common.{
  List, [], ◌∷◌, ◌++◌, Option, none, some, Text, Text_discrete, codes, ok, err, true, false, ite,
  if◌then◌else◌,
}
use orin_device_system.Common.Sets.{IntSets, StringSets}
use orin_device_system.Allocator.{Outcome, done, panic}
use orin_device_system.Cache.{ScheduleCache}
use orin_device_system.Manager.Bind.{Api, BindError, BindState, Retry}
use orin_device_system.Routes.{
  ExtenderArgs, ExtenderFilterResult, HostPriority, ExtenderBindingArgs, predicate_handler,
  prioritize_handler, bind_handler,
}
use orin_device_system.Routes.Http.{
  Exchange, fresh, info, debug_request, debug_response, log_print, set_header, write_header, write,
  check_body, Served, answered, panicked, Codec,
}

abbrev pub api_prefix : Text
api_prefix = codes "/scheduler"

abbrev pub bind_path : Text
bind_path = api_prefix ++ codes "/bind"

abbrev pub predicates_prefix : Text
predicates_prefix = api_prefix ++ codes "/predicates"

abbrev pub priorities_prefix : Text
priorities_prefix = api_prefix ++ codes "/priorities"

-- A handler of the router: it may change the program's state.
abbrev pub Route : Type 0 → Type 0
Route W = Option Text → W → Exchange → Served W

-- the error of a request that cannot be decoded
abbrev pub filter_error : Text → ExtenderFilterResult
filter_error message = record { node_names = none; failed_nodes = []; error = message }

module _ {A B W : Type 0} (codec : Codec A B) where
  -- the result as JSON, in all three routes
  unfoldable pub respond : Text → B → W → Exchange → Served W
  respond label result w x = elim (codec.encode result) [
    | err e ↦ panicked x
    | ok body ↦
        let x' = log_print (info (codes "info: " ++ label ++ body)) x in
        answered w (record x' {
          response = write body (
              write_header 200
                (set_header (codes "Content-Type") (codes "application/json") x'.response));
        })
  ]

  unfoldable pub respond_to : Text → Outcome (W × B) → Exchange → Served W
  respond_to label panic x = panicked x
  respond_to label (done (w, result)) x = respond label result w x

  -- A route, up to its handler: the body is checked, the text read so far (none) is logged, and the
  -- body, which must not be nil, is decoded. `failed` is what the route does if that fails.
  unfoldable pub route :
      Text → Text → (W → codec.JsonError → Outcome (W × B)) → (W → A → Outcome (W × B)) → Route W
  route args_label result_label failed handler none w x =
      panicked (log_print (info (codes "info: " ++ args_label)) (check_body none x))
  route args_label result_label failed handler (some body) w x =
      let x' = log_print (info (codes "info: " ++ args_label)) (check_body (some body) x) in
      elim (codec.decode body) [
        | err e ↦ respond_to result_label (failed w e) x'
        | ok args ↦ respond_to result_label (handler w args) x'
      ]

module _ {W : Type 0} where
  -- A result beside the state, which the handler only reads.
  unfoldable pub reading : {B : Type 0} → W → Outcome B → Outcome (W × B)
  reading w panic = panic
  reading w (done b) = done (w, b)

  unfoldable pub log_response : Text → Served W → Served W
  log_response path (answered w x) = answered w (log_print (debug_response path) x)
  log_response path (panicked x) = panicked x

  unfoldable pub debug_logging : Route W → Text → Route W
  debug_logging h path body w x = log_response path (h body w (log_print (debug_request path) x))

-- The handlers that were given to the router, each under its method and path.
pub record Endpoint (W : Type 0) : Type 0 where
  pub method : Text
  pub path : Text
  pub handler : Route W

abbrev pub Router : Type 0 → Type 0
Router W = List (Endpoint W)

module _ {W : Type 0} where
  unfoldable pub find_route : Text → Text → Router W → Option (Route W)
  find_route method path [] = none
  find_route method path (e ∷ router) =
      if ite (Text_discrete method e.method) (ite (Text_discrete path e.path) true false) false
      then some e.handler
      else find_route method path router

  -- The answer to a request, if a handler was given for its method and path.
  unfoldable pub serve : Router W → Text → Text → Option Text → W → Option (Served W)
  serve router method path body w = elim (find_route method path router) [
    | none ↦ none
    | some h ↦ some (h body w fresh)
  ]

  -- router.POST and router.GET, with the handler logged
  unfoldable pub handle : Text → Text → Route W → Router W → Router W
  handle method path h router =
      router ++ record { method = method; path = path; handler = debug_logging h path } ∷ []

abbrev pub version_path : Text
version_path = codes "/version"

module _ {W : Type 0} where
  -- cmd/scheduler: `VersionRoute`
  unfoldable pub version_route : Text → Route W
  version_route version body w x = answered w (record x { response = write version x.response })

  unfoldable pub add_version : Text → Router W → Router W
  add_version version router = handle (codes "GET") version_path (version_route version) router

module _ ⦃S : IntSets⦄ ⦃T : StringSets⦄ {W : Type 0} (cache_of : W → ScheduleCache) where
  -- `order` is that of the workers of `Predicate`.
  unfoldable pub predicate_route :
      (codec : Codec ExtenderArgs ExtenderFilterResult) → Text → List Text → Route W
  predicate_route codec name order =
      route codec (name ++ codes " ExtenderArgs = ") (name ++ codes " extenderFilterResult = ")
        (λ w e. done (w, filter_error (codec.error e)))
        (λ w args. reading w (predicate_handler (cache_of w) order args))

  unfoldable pub prioritize_route : Codec ExtenderArgs (List HostPriority) → Text → Route W
  prioritize_route codec name =
      route codec (name ++ codes " ExtenderArgs = ") (name ++ codes " hostPriorityList = ")
        (λ w e. panic) (λ w args. reading w (prioritize_handler (cache_of w) args))

  unfoldable pub add_predicate :
      Codec ExtenderArgs ExtenderFilterResult → Text → List Text → Router W → Router W
  add_predicate codec name order router =
      handle (codes "POST") predicates_prefix (predicate_route codec name order) router

  unfoldable pub add_prioritize :
      Codec ExtenderArgs (List HostPriority) → Text → Router W → Router W
  add_prioritize codec name router =
      handle (codes "POST") priorities_prefix (prioritize_route codec name) router

-- The result of `Bind.Handler` is the message of its error.
module _ ⦃S : IntSets⦄ ⦃T : StringSets⦄ (api : Api) (message : BindError api.ApiError → Text)
    (retry : Retry) where
  -- The state that the routes share: the API server's, and the cache.
  pub record Service : Type 0 where
    pub world : api.World
    pub cache : ScheduleCache

  unfoldable pub after_handler : Outcome (BindState api × Text) → Outcome (Service × Text)
  after_handler panic = panic
  after_handler (done (s, text)) = done (record { world = s.world; cache = s.cache }, text)

  unfoldable pub bind_route : Codec ExtenderBindingArgs Text → Route Service
  bind_route codec =
      route codec (codes "extenderBindingArgs = ") (codes "extenderBindingResult = ")
        (λ w e. done (w, codec.error e))
        (λ w args. after_handler (bind_handler api message retry w.world w.cache args))

  unfoldable pub add_bind : Codec ExtenderBindingArgs Text → Router Service → Router Service
  add_bind codec router = handle (codes "POST") bind_path (bind_route codec) router

  -- The endpoints of `main`; `order` is that of the workers of `Predicate`.
  unfoldable pub extender_router :
      Text
      → Codec ExtenderArgs ExtenderFilterResult
      → Codec ExtenderArgs (List HostPriority)
      → Codec ExtenderBindingArgs Text
      → List Text
      → Router Service
  extender_router version filters priorities binds order =
      let name = codes "orin-system" in
      add_bind binds (
        add_prioritize (λ (s : Service). s.cache) priorities name
          (add_predicate (λ (s : Service). s.cache) filters name order (add_version version [])))
