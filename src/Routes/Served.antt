-- ===== src/Routes/Served.antt =====
-- What the extender serves on its paths: the answers of its handlers, as JSON.
use orin_device_system.Common.{
  List, [], ◌∷◌, ◌++◌, Option, none, some, Text, Text_discrete, codes, insert, ok, err, ◌≡◌, ◌⊎◌,
  inl, inr, refl, ap, ◌∙◌,
}
use orin_device_system.Common.Sets.{IntSets, StringSets}
use orin_device_system.Allocator.{Outcome, done, binpack_allocator}
use orin_device_system.Pods.{Pod, build_request_orin_set}
use orin_device_system.Manager.{Filtered, pod_allocator}
use orin_device_system.Manager.Rounds.{NodesSane}
use orin_device_system.Manager.Filter.{IsSchedule, Answer, predicate-Answer}
use orin_device_system.Manager.Bind.{Api, BindError, Retry}
use orin_device_system.Routes.{
  ExtenderArgs, ExtenderFilterResult, HostPriority, ExtenderBindingArgs, filter_result,
  predicate_handler, bind_handler,
}
use orin_device_system.Routes.Http.{
  Response, Exchange, fresh, info, debug_request, debug_response, log_print, set_header,
  write_header, write, http_error, check_body, answered, panicked, Codec,
}
use orin_device_system.Routes.Serve.{
  Service, after_handler, Route, Router, find_route, handle, serve, add_predicate, add_prioritize,
  add_bind, add_version, extender_router, predicates_prefix, priorities_prefix, bind_path,
  debug_logging, log_response, filter_error, predicate_route, prioritize_route, bind_route, route,
  respond_to, respond, reading,
}

-- A response with the status 200 and a JSON text.
abbrev pub json_response : Text → Response
json_response body = record {
  status = some 200;
  headers = (codes "Content-Type", codes "application/json") ∷ [];
  body = body;
}

module _ {A B W : Type 0} (codec : Codec A B) where
  respond_fresh :
      (label : Text) (result : B) (w : W) (x : Exchange) (body : Text)
      → codec.encode result ≡ ok body
      → x.response ≡ fresh.response
      → (x' : Exchange) × (respond codec label result w x ≡ answered w x')
        × (x'.response ≡ json_response body)
  unfolding respond log_print set_header write_header write insert
  respond_fresh label result w x body e f =
      let x' : Exchange = log_print (info (codes "info: " ++ label ++ body)) x in
      (
        record x' {
          response = write body (
              write_header 200
                (set_header (codes "Content-Type") (codes "application/json") x'.response));
        },
        rw (e, respond) refl,
        ap
            (λ r.
              write body
                (write_header 200 (set_header (codes "Content-Type") (codes "application/json") r)))
            f,
      )

  -- A request with a body that decodes, where the handler returns a result that encodes.
  route_fresh :
      (args_label label : Text) (failed : W → codec.JsonError → Outcome (W × B))
      (handler : W → A → Outcome (W × B)) (text body : Text) (args : A) (w w' : W) (result : B)
      (x : Exchange)
      → codec.decode text ≡ ok args
      → handler w args ≡ done (w', result)
      → codec.encode result ≡ ok body
      → x.response ≡ fresh.response
      → (x' : Exchange) × (route codec args_label label failed handler (some text) w x
          ≡ answered w' x')
        × (x'.response ≡ json_response body)
  unfolding route respond_to check_body log_print
  route_fresh args_label label failed handler text body args w w' result x d h e f =
      let logged = log_print (info (codes "info: " ++ args_label)) (check_body (some text) x) in
      let (x', responded, shape) = respond_fresh label result w' logged body e f in
      (x', rw (d, route) (rw (h, respond_to) responded), shape)

  -- A request whose body does not decode, where the route has a result for that.
  route_failed :
      (args_label label : Text) (failed : W → codec.JsonError → Outcome (W × B))
      (handler : W → A → Outcome (W × B)) (text body : Text) (e : codec.JsonError) (w w' : W)
      (result : B) (x : Exchange)
      → codec.decode text ≡ err e
      → failed w e ≡ done (w', result)
      → codec.encode result ≡ ok body
      → x.response ≡ fresh.response
      → (x' : Exchange) × (route codec args_label label failed handler (some text) w x
          ≡ answered w' x')
        × (x'.response ≡ json_response body)
  unfolding route respond_to check_body log_print
  route_failed args_label label failed handler text body e w w' result x d h c f =
      let logged = log_print (info (codes "info: " ++ args_label)) (check_body (some text) x) in
      let (x', responded, shape) = respond_fresh label result w' logged body c f in
      (x', rw (d, route) (rw (h, respond_to) responded), shape)

  logged_fresh :
      (h : Route W) (path text body : Text) (w w' : W)
      → ((x : Exchange)
          → x.response ≡ fresh.response
          → (x' : Exchange) × (h (some text) w x ≡ answered w' x')
            × (x'.response ≡ json_response body))
      → (x' : Exchange) × (debug_logging h path (some text) w fresh ≡ answered w' x')
        × (x'.response ≡ json_response body)
  unfolding debug_logging log_response log_print
  logged_fresh h path text body w w' answers =
      let (x', e, shape) = answers (log_print (debug_request path) fresh) refl in
      (log_print (debug_response path) x', rw (e, log_response) refl, shape)

module _ ⦃S : IntSets⦄ ⦃T : StringSets⦄ (api : Api) (message : BindError api.ApiError → Text)
    (retry : Retry) (version : Text) (filters : Codec ExtenderArgs ExtenderFilterResult)
    (priorities : Codec ExtenderArgs (List HostPriority))
    (binds : Codec ExtenderBindingArgs Text) where
  module _ (order : List Text) where
    abbrev router : Router (Service api message retry)
    router = extender_router api message retry version filters priorities binds order

    abbrev predicates_handler : Route (Service api message retry)
    predicates_handler =
        predicate_route (λ (s : Service api message retry). s.cache) filters (codes "orin-system")
          order

    abbrev priorities_handler : Route (Service api message retry)
    priorities_handler =
        prioritize_route (λ (s : Service api message retry). s.cache) priorities
          (codes "orin-system")

    find-predicates :
        find_route (codes "POST") predicates_prefix router
        ≡ some (debug_logging predicates_handler predicates_prefix)
    unfolding extender_router add_bind add_prioritize add_predicate add_version handle find_route
        Text_discrete
    find-predicates = refl

    find-priorities :
        find_route (codes "POST") priorities_prefix router
        ≡ some (debug_logging priorities_handler priorities_prefix)
    unfolding extender_router add_bind add_prioritize add_predicate add_version handle find_route
        Text_discrete
    find-priorities = refl

    find-bind :
        find_route (codes "POST") bind_path router
        ≡ some (debug_logging (bind_route api message retry binds) bind_path)
    unfolding extender_router add_bind add_prioritize add_predicate add_version handle find_route
        Text_discrete
    find-bind = refl

  module _ (order : List Text) (body : Option Text) (s : Service api message retry) where
    serve-predicates :
        serve (router order) (codes "POST") predicates_prefix body s
        ≡ some (debug_logging (predicates_handler order) predicates_prefix body s fresh)
    unfolding serve
    serve-predicates = rw (find-predicates order, serve) refl

    serve-priorities :
        serve (router order) (codes "POST") priorities_prefix body s
        ≡ some (debug_logging (priorities_handler order) priorities_prefix body s fresh)
    unfolding serve
    serve-priorities = rw (find-priorities order, serve) refl

    serve-bind :
        serve (router order) (codes "POST") bind_path body s
        ≡ some (debug_logging (bind_route api message retry binds) bind_path body s fresh)
    unfolding serve
    serve-bind = rw (find-bind order, serve) refl

  -- A request on the extender's path of predicates, whose body decodes to a pod with the binpack
  -- policy and names of nodes, where the free orins of every cached node are a sane map and every
  -- result encodes: for every order of the workers, it is answered with the status 200 and the JSON
  -- of an answer of `Predicate` that is as its specification says, and the cache stays as it was.
  pub served_predicates :
      (order : List Text) (s : Service api message retry) (text : Text) (pod : Pod)
      (nodes : List Text) (encoded : ExtenderFilterResult → Text)
      → filters.decode text ≡ ok (record { pod = pod; node_names = some nodes })
      → ((r : ExtenderFilterResult) → filters.encode r ≡ ok (encoded r))
      → pod_allocator pod ≡ some binpack_allocator
      → NodesSane s.cache (build_request_orin_set pod)
      → IsSchedule s.cache nodes order pod
      → (r : Filtered) × (x : Exchange) × (serve
            (extender_router api message retry version filters priorities binds order)
            (codes "POST")
            predicates_prefix
            (some text)
            s
          ≡ some (answered s x))
        × (x.response
            ≡ json_response (
                encoded
                  (record { node_names = some r.nodes; failed_nodes = r.failed; error = [] })))
        × Answer s.cache nodes order pod r
  unfolding predicate_route predicate_handler filter_result reading
  served_predicates order s text pod nodes encoded d e policy sane fair =
      let (r, answer, spec) = predicate-Answer s.cache nodes order pod policy sane fair in
      let result : ExtenderFilterResult = record {
        node_names = some r.nodes;
        failed_nodes = r.failed;
        error = [];
      } in
      let (x, served, shape) =
        logged_fresh filters (predicates_handler order) predicates_prefix text (encoded result) s s
          (λ x f.
            route_fresh filters _ _ _ _ text (encoded result)
              (record { pod = pod; node_names = some nodes }) s s result x d
              (rw (answer, filter_result) refl) (e result) f) in
      (r, x, serve-predicates order (some text) s ∙ ap some served, shape, spec)

  -- A request without a body panics on each of the three paths, after `checkBody` has answered it
  -- with the status 400.
  pub served_no_body :
      (order : List Text) (s : Service api message retry) (path : Text)
      → (path ≡ predicates_prefix) ⊎ (path ≡ priorities_prefix) ⊎ (path ≡ bind_path)
      → (x : Exchange) × (serve
            (extender_router api message retry version filters priorities binds order)
            (codes "POST")
            path
            none
            s
          ≡ some (panicked x))
        × (x.response.status ≡ some 400)
  unfolding predicate_route prioritize_route bind_route route debug_logging log_response log_print
      check_body http_error set_header write_header write
  served_no_body order s path (inl e) = (
    _,
    ap (λ p. serve (router order) (codes "POST") p none s) e ∙ serve-predicates order none s,
    refl,
  )
  served_no_body order s path (inr (inl e)) = (
    _,
    ap (λ p. serve (router order) (codes "POST") p none s) e ∙ serve-priorities order none s,
    refl,
  )
  served_no_body order s path (inr (inr e)) =
      (_, ap (λ p. serve (router order) (codes "POST") p none s) e ∙ serve-bind order none s, refl)

  -- A body that is no JSON of the arguments, where every result encodes: the path of predicates
  -- answers with the status 200 and a result that has only the error, and so does the path of
  -- bindings; neither changes the state. The path of priorities panics, with nothing written.
  pub served_bad_json :
      (order : List Text) (s : Service api message retry) (text : Text) (e : filters.JsonError)
      (e' : priorities.JsonError) (e'' : binds.JsonError) (filtered : ExtenderFilterResult → Text)
      (bound : Text → Text)
      → filters.decode text ≡ err e
      → priorities.decode text ≡ err e'
      → binds.decode text ≡ err e''
      → ((r : ExtenderFilterResult) → filters.encode r ≡ ok (filtered r))
      → ((r : Text) → binds.encode r ≡ ok (bound r))
      → let r = extender_router api message retry version filters priorities binds order in
        ((x : Exchange) × (serve r (codes "POST") predicates_prefix (some text) s
            ≡ some (answered s x))
          × (x.response ≡ json_response (filtered (filter_error (filters.error e)))))
        × ((x : Exchange) × (serve r (codes "POST") bind_path (some text) s ≡ some (answered s x))
            × (x.response ≡ json_response (bound (binds.error e''))))
        × ((x : Exchange) × (serve r (codes "POST") priorities_prefix (some text) s
              ≡ some (panicked x))
            × (x.response ≡ fresh.response))
  unfolding predicate_route prioritize_route bind_route route debug_logging log_response log_print
      check_body respond_to
  served_bad_json order s text e e' e'' filtered bound d d' d'' c c' =
      let (x, served, shape) =
        logged_fresh filters (predicates_handler order) predicates_prefix text
          (filtered (filter_error (filters.error e))) s s
          (λ x f.
            route_failed filters (codes "orin-system" ++ codes " ExtenderArgs = ")
              (codes "orin-system" ++ codes " extenderFilterResult = ")
              (λ w e. done (w, filter_error (filters.error e)))
              (λ w args. reading w (predicate_handler w.cache order args)) text _ e s s
              (filter_error (filters.error e)) x d refl (c _) f) in
      let (y, served', shape') =
        logged_fresh binds (bind_route api message retry binds) bind_path text
          (bound (binds.error e'')) s s
          (λ x f.
            route_failed binds (codes "extenderBindingArgs = ") (codes "extenderBindingResult = ")
              (λ w e. done (w, binds.error e))
              (λ w args.
                after_handler api message retry
                  (bind_handler api message retry w.world w.cache args))
              text _ e'' s s (binds.error e'') x d'' refl (c' _) f) in
      (
        (x, serve-predicates order (some text) s ∙ ap some served, shape),
        (y, serve-bind order (some text) s ∙ ap some served', shape'),
        (
          log_print (info (codes "info: " ++ codes "orin-system" ++ codes " ExtenderArgs = "))
              (log_print (debug_request priorities_prefix) fresh),
          serve-priorities order (some text) s ∙ rw (d', route) refl,
          refl,
        ),
      )
