-- ===== src/Middleware.antt =====
-- app/middleware/observability.py: what is counted and logged of a request, around the application.
pub mod Counts
pub mod Logs
use smart_auth_with_kubernat.Prelude.{
  ℕ, ◌+◌, String, Bool, not, Option, none, some, List, [], ◌∷◌, ◌++◌, ◌==◌, string_eq,
  if◌then◌else◌,
}
use smart_auth_with_kubernat.Prelude.Texts.{decimal}
use smart_auth_with_kubernat.Prelude.Rows.{set_item}
use smart_auth_with_kubernat.Platform.Contextvars.{Context, Contextvars}
use smart_auth_with_kubernat.Platform.Registry.{Registry, Floats, RequestLabels, ExceptionLabels}

-- what the middleware reads of a request
pub record HttpRequest : Type 0 where
  pub method : String
  pub url_path : String
  pub request_id : Option String

pub record HttpResponse : Type 0 where
  pub status_code : ℕ
  pub headers : List (String × String)

-- how `await call_next(request)` ends: a response, an `Exception` by the name of its class, or a
-- `BaseException` that is none, as `CancelledError`, which `except Exception` lets pass
pub data Outcome : Type 0 where
  responded : HttpResponse → Outcome
  raised : String → Outcome
  interrupted : String → Outcome

-- what the application makes of a request, and the path of the route that it has found for it, which
-- it leaves in the request's scope
pub record Reply : Type 0 where
  pub outcome : Outcome
  pub route : Option String

-- `_route_path`; a route with an empty path counts as none
unfoldable pub route_path : HttpRequest → Option String → String
route_path request none = request.url_path
route_path request (some path) = if path == "" then request.url_path else path

-- `response.headers[name] = value`
abbrev pub set_header : String → String → List (String × String) → List (String × String)
set_header name value headers = set_item name value headers

abbrev pub status_of : Outcome → ℕ
status_of (responded response) = response.status_code
status_of (raised name) = 500
status_of (interrupted name) = 500

-- what is said of a request: that it raised an `Exception`, or its status, its duration and its route
pub data Event (F : Floats) : Type 0 where
  request_failed : Event F
  request_completed : ℕ → F.Float → String → Event F

-- an event with the variables that are bound when it is logged
pub record LogLine (F : Floats) : Type 0 where
  pub event : Event F
  pub context : Context

-- the metrics and the log, the variables that are bound, and how often the clock has been read and
-- an id has been drawn
pub record Watch (R : Registry) (V : Contextvars) : Type 0 where
  pub metrics : R.State
  pub log : List (LogLine R.floats)
  pub bound : V.State
  pub readings : ℕ
  pub draws : ℕ

abbrev pub id_of : (ℕ → String) → HttpRequest → ℕ → String
id_of uuid4_text request n = elim request.request_id [ none ↦ uuid4_text n | some id ↦ id ]

-- Starlette keeps the names of headers in lower case.
abbrev pub answer_with : String → Outcome → Outcome
answer_with request_id (responded response) =
    responded (record response { headers = set_header "x-request-id" request_id response.headers })
answer_with request_id (raised name) = raised name
answer_with request_id (interrupted name) = interrupted name

module _ (R : Registry) where
  -- `if route_path != "/metrics": REQUEST_EXCEPTIONS.labels(...).inc()`
  unfoldable pub count_exception : HttpRequest → String → Outcome → R.State → R.State
  count_exception request path (responded response) s = s
  count_exception request path (interrupted name) s = s
  count_exception request path (raised name) s =
      if path == "/metrics"
      then s
      else R.inc_exception (record { method = request.method; path = path; exception_type = name })
          s

  -- the counts of the `finally`
  unfoldable pub count_request : HttpRequest → String → Outcome → R.Float → R.State → R.State
  count_request request path outcome duration s =
      if path == "/metrics"
      then s
      else R.observe_duration request.method path duration (
          R.inc_request
            (record { method = request.method; path = path; status = decimal (status_of outcome) })
            s)

  -- `logger.exception("request_failed")`
  abbrev pub log_failure : Outcome → Context → List (LogLine R.floats) → List (LogLine R.floats)
  log_failure (responded response) context log = log
  log_failure (interrupted name) context log = log
  log_failure (raised name) context log =
      log ++ record { event = request_failed; context = context } ∷ []

module _ {W : Type 0} (call_next : HttpRequest → W → Reply × W) where
  -- what the application makes of requests, one after the other
  unfoldable pub replies : List HttpRequest → W → List (HttpRequest × Reply)
  replies [] w = []
  replies (request ∷ requests) w =
      let (reply, w') = call_next request w in (request, reply) ∷ replies requests w'

-- what is bound while a request is served
abbrev pub request_context : String → HttpRequest → Context
request_context request_id request =
    ("request_id", request_id) ∷ ("method", request.method) ∷ ("path", request.url_path) ∷ []

module _ {R : Registry} {V : Contextvars} (seconds : ℕ → ℕ → R.Float)
    (rounded_ms : R.Float → R.Float) (uuid4_text : ℕ → String) {W : Type 0}
    (call_next : HttpRequest → W → Reply × W) where
  -- `request.headers.get("x-request-id", str(uuid4()))`: the id is drawn in either case.
  unfoldable pub dispatch : HttpRequest → W × Watch R V → Outcome × (W × Watch R V)
  dispatch request (w, watch) =
      let request_id = id_of uuid4_text request watch.draws in
      let bound =
        V.bind_contextvars (request_context request_id request) (V.clear_contextvars watch.bound) in
      let context = V.get_contextvars bound in
      let (reply, w') = call_next request w in
      let path = route_path request reply.route in
      let duration = seconds watch.readings (watch.readings + 1) in
      let counted =
        count_request R request path reply.outcome duration
          (count_exception R request path reply.outcome watch.metrics) in
      let completed : LogLine R.floats = record {
        event = request_completed (status_of reply.outcome) (rounded_ms duration) path;
        context = context;
      } in
      (
        answer_with request_id reply.outcome,
        (
          w',
          record {
            metrics = counted;
            log = log_failure R reply.outcome context watch.log ++ completed ∷ [];
            bound = V.clear_contextvars bound;
            readings = watch.readings + 2;
            draws = watch.draws + 1;
          },
        ),
      )

  -- requests handled one after the other
  unfoldable pub dispatch_all : List HttpRequest → W × Watch R V → W × Watch R V
  dispatch_all [] s = s
  dispatch_all (request ∷ requests) s = dispatch_all requests (dispatch request s).1
