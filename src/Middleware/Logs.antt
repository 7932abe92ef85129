-- ===== src/Middleware/Logs.antt =====
-- What the log says of requests, and what is bound while it says it.
use smart_auth_with_kubernat.Prelude.{
  ℕ, ◌+◌, String, ◌≡◌, refl, Option, none, some, List, [], ◌∷◌, ◌++◌, ◌∙◌, ap, arith, ◌==◌,
  string_eq, ==_refl, if◌then◌else◌,
}
use mathlib.Core.List.{append_assoc}
use smart_auth_with_kubernat.Middleware.{
  HttpRequest, HttpResponse, Outcome, responded, raised, interrupted, Reply, Watch, route_path,
  status_of, set_header, id_of, answer_with, log_failure, LogLine, request_failed,
  request_completed, request_context, dispatch,
}
use smart_auth_with_kubernat.Platform.Contextvars.{
  Context, Contextvars, AreContextvars, update_items,
}
use smart_auth_with_kubernat.Platform.Registry.{Registry}

-- the value of a header
abbrev pub header : String → List (String × String) → Option String
header name [] = none
header name ((k, v) ∷ l) = if k == name then some v else header name l

header-set_header :
    (name value : String) (l : List (String × String))
    → header name (set_header name value l) ≡ some value
header-set_header name value [] = ground (arith, ==_refl name)
header-set_header name value ((k, v) ∷ l) =
    ground (arith, header-set_header name value l, ==_refl name)

module _ (R : Registry) (seconds : ℕ → ℕ → R.Float) (rounded_ms : R.Float → R.Float)
    (uuid4_text : ℕ → String) where
  abbrev completed_line : ℕ → Context → HttpRequest × Reply → LogLine R.floats
  completed_line readings context (request, reply) = record {
    event =
        request_completed (status_of reply.outcome) (rounded_ms (seconds readings (readings + 1)))
          (route_path request reply.route);
    context = context;
  }

  -- that the request failed, if it raised an `Exception`, and then that it is completed
  abbrev lines_of_outcome : Context → LogLine R.floats → Outcome → List (LogLine R.floats)
  lines_of_outcome context completed (responded response) = completed ∷ []
  lines_of_outcome context completed (interrupted name) = completed ∷ []
  lines_of_outcome context completed (raised name) =
      record { event = request_failed; context = context } ∷ completed ∷ []

  -- the lines of a request: all are bound to its id, its method and its path
  abbrev pub lines_of : ℕ → ℕ → HttpRequest × Reply → List (LogLine R.floats)
  lines_of readings draws (request, reply) =
      let context = request_context (id_of uuid4_text request draws) request in
      lines_of_outcome context (completed_line readings context (request, reply)) reply.outcome

  log_failure-lines :
      (context : Context) (completed : LogLine R.floats) (o : Outcome)
      (log : List (LogLine R.floats))
      → log_failure R o context log ++ completed ∷ [] ≡ log ++ lines_of_outcome context completed o
  log_failure-lines context completed (responded response) log = refl
  log_failure-lines context completed (interrupted name) log = refl
  log_failure-lines context completed (raised name) log = append_assoc log _ _

answer_with-id :
    (id : String) (o : Outcome) (response : HttpResponse)
    → answer_with id o ≡ responded response
    → header "x-request-id" response.headers ≡ some id
answer_with-id id (responded r) response h =
    let set = header-set_header "x-request-id" id r.headers in cc
answer_with-id id (raised name) response h = cc
answer_with-id id (interrupted name) response h = cc

module _ {V : Contextvars} (K : AreContextvars V) where
  -- What is bound after a clear is all that is bound.
  bound-alone :
      (values : Context) (s : V.State)
      → V.get_contextvars (V.bind_contextvars values (V.clear_contextvars s))
        ≡ update_items values []
  bound-alone values s =
      K.get-bind_contextvars values (V.clear_contextvars s)
      ∙ ap (update_items values) (K.get-clear_contextvars s)

  module _ {R : Registry} (seconds : ℕ → ℕ → R.Float) (rounded_ms : R.Float → R.Float)
      (uuid4_text : ℕ → String) {W : Type 0} (call_next : HttpRequest → W → Reply × W) where
    -- Whatever is bound before it, a request adds to the log that it is completed, with its status
    -- and route, after that it failed if it raised an `Exception`, and each of these lines is bound
    -- to its id, method and path. Its response, if there is one, carries the same id, and nothing is
    -- bound when it is over.
    pub dispatch-traced :
        (request : HttpRequest) (w : W) (watch : Watch R V)
        → let (outcome, (_, watch')) =
            dispatch seconds rounded_ms uuid4_text call_next request (w, watch) in
          (watch'.log
            ≡ watch.log
              ++ lines_of R seconds rounded_ms uuid4_text watch.readings watch.draws
                  (request, (call_next request w).0))
          × ((response : HttpResponse)
              → outcome ≡ responded response
              → header "x-request-id" response.headers
                ≡ some (id_of uuid4_text request watch.draws))
          × (V.get_contextvars watch'.bound ≡ [])
    unfolding dispatch
    dispatch-traced request w watch =
        let id = id_of uuid4_text request watch.draws in
        let reply = (call_next request w).0 in
        let context = request_context id request in
        (
          rw (bound-alone context watch.bound) (
              log_failure-lines R seconds rounded_ms uuid4_text context
                (completed_line R seconds rounded_ms uuid4_text watch.readings context
                  (request, reply))
                reply.outcome watch.log),
          answer_with-id id reply.outcome,
          K.get-clear_contextvars _,
        )
