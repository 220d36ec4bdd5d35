-- ===== src/Routes/Http.antt =====
-- pkg/scheduler/routes/routes.go: what a route writes. A response keeps the rules of net/http: the
-- first status counts, and headers that are set after it are not sent.
use orin_device_system.Common.{
  ℕ, List, [], ◌∷◌, ◌++◌, Option, none, some, Text, Text_discrete, codes, insert, Result,
}
use orin_device_system.Pods.{TextMap}

pub record Response : Type 0 where
  pub status : Option ℕ
  pub headers : TextMap Text
  pub body : Text

-- w.Header().Set(k, v)
unfoldable pub set_header : Text → Text → Response → Response
set_header k v w = elim w.status [
  | none ↦ record w { headers = insert Text_discrete k v w.headers }
  | some s ↦ w
]

-- w.WriteHeader(code)
unfoldable pub write_header : ℕ → Response → Response
write_header code w = elim w.status [ none ↦ record w { status = some code } | some s ↦ w ]

-- w.Write(b), which sends the status 200 if none is sent
unfoldable pub write : Text → Response → Response
write b w = let w' = write_header 200 w in record w' { body = w'.body ++ b }

-- http.Error(w, message, code)
unfoldable pub http_error : Text → ℕ → Response → Response
http_error message code w = write (message ++ b'\n' ∷ []) (
    write_header code (
      set_header (codes "X-Content-Type-Options") (codes "nosniff")
        (set_header (codes "Content-Type") (codes "text/plain; charset=utf-8") w)))

-- What goes to the log; of the values that `DebugLogging` prints only the path is kept.
pub data LogEntry : Type 0 where
  info : Text → LogEntry
  debug_request : (path : Text) → LogEntry
  debug_response : (path : Text) → LogEntry

pub record Exchange : Type 0 where
  pub response : Response
  pub log : List LogEntry

unfoldable pub log_print : LogEntry → Exchange → Exchange
log_print entry x = record x { log = x.log ++ entry ∷ [] }

abbrev pub fresh : Exchange
fresh = record { response = record { status = none; headers = []; body = [] }; log = [] }

-- `checkBody`: it answers a request without a body, and returns in either case.
unfoldable pub check_body : Option Text → Exchange → Exchange
check_body (some body) x = x
check_body none x = record x {
  response = http_error (codes "Please send a request body") 400 x.response;
}

-- How a route ends: with what it leaves behind, or with a panic after what it has written.
pub data Served (W : Type 0) : Type 0 where
  answered : W → Exchange → Served W
  panicked : Exchange → Served W

-- encoding/json, for the arguments and the results of a route
pub record Codec (A B : Type 0) : Type 1 where
  pub JsonError : Type 0
  pub decode : Text → Result JsonError A
  pub encode : B → Result JsonError Text
  pub error : JsonError → Text
