-- ===== src/Tests/Traffic.antt =====
-- A registry in memory, and requests that are counted in it.
use Prim.Native.String.{◌++◌ as ◌++ₜ◌}
use smart_auth_with_kubernat.Prelude.{
  ℕ, ◌+◌, ◌*◌, ◌/◌, String, ◌≡◌, refl, none, some, List, [], ◌∷◌, arith, ◌==◌, string_eq, nat_eq,
  if◌then◌else◌,
}
use mathlib.Core.List.{◌++◌}
use smart_auth_with_kubernat.Prelude.Counts.{bump}
use smart_auth_with_kubernat.Prelude.Texts.{decimal}
use smart_auth_with_kubernat.Metrics.{
  get_http_metrics_snapshot, tally, total_duration, total_exceptions,
}
use smart_auth_with_kubernat.Middleware.{
  HttpRequest, HttpResponse, Reply, request_completed, responded, raised, Watch, dispatch_all,
  dispatch, count_request, count_exception, replies, route_path,
}
use smart_auth_with_kubernat.Middleware.Counts.{snapshot-dispatch_all}
use smart_auth_with_kubernat.Middleware.Logs.{header, dispatch-traced}
use smart_auth_with_kubernat.Platform.Contextvars.{
  Context, Contextvars, AreContextvars, update_items,
}
use smart_auth_with_kubernat.Platform.Registry.{
  Floats, Sample, Registry, IsRegistry, RequestLabels, ExceptionLabels, request_dict,
  exception_dict, counter_samples, request_labels_eq, exception_labels_eq,
}

pub record Counters : Type 0 where
  pub requests : List (RequestLabels × ℕ)
  pub exceptions : List (ExceptionLabels × ℕ)

abbrev whole_numbers : Floats
whole_numbers = record {
  Float = ℕ;
  zero_float = 0;
  add_float = λ x y. x + y;
  int = λ x. x;
  average_ms = λ x n. x * 1000 / n;
}

abbrev samples_of {ℓ} :
    {L : Type ℓ}
    → String
    → (L → List (String × String))
    → List (L × ℕ)
    → List (Sample whole_numbers)
samples_of name dict [] = []
samples_of name dict ((l, n) ∷ m) =
    record { name = name ++ₜ "_total"; labels = dict l; value = n }
    ∷ record { name = name ++ₜ "_created"; labels = dict l; value = 0 }
    ∷ samples_of name dict m

-- It measures no durations.
abbrev pub memory_registry : Registry
memory_registry = record {
  floats = whole_numbers;
  State = Counters;
  inc_request = λ l s. record s { requests = bump l 1 s.requests };
  inc_exception = λ l s. record s { exceptions = bump l 1 s.exceptions };
  observe_duration = λ m p x s. s;
  request_samples = λ s. samples_of "smart_auth_http_requests" request_dict s.requests;
  exception_samples = λ s. samples_of "smart_auth_http_exceptions" exception_dict s.exceptions;
  duration_samples = λ s. [];
  request_counts = λ s. s.requests;
  exception_counts = λ s. s.exceptions;
  value_of = λ n. n;
  created = λ s. 0;
}

requests_samples :
    (s : Counters) (m : List (RequestLabels × ℕ)) (name : String)
    → samples_of name request_dict m ≡ counter_samples memory_registry name request_dict s m
requests_samples s [] name = refl
requests_samples s ((l, n) ∷ m) name = rw (requests_samples s m name)

exceptions_samples :
    (s : Counters) (m : List (ExceptionLabels × ℕ)) (name : String)
    → samples_of name exception_dict m ≡ counter_samples memory_registry name exception_dict s m
exceptions_samples s [] name = refl
exceptions_samples s ((l, n) ∷ m) name = rw (exceptions_samples s m name)

memory_registry-IsRegistry : IsRegistry memory_registry
memory_registry-IsRegistry = record {
  int-value_of = λ n few. refl;
  request_samples_lem = λ s. requests_samples s s.requests "smart_auth_http_requests";
  exception_samples_lem = λ s. exceptions_samples s s.exceptions "smart_auth_http_exceptions";
  request_counts-inc_request = λ l s. refl;
  request_counts-inc_exception = λ l s. refl;
  request_counts-observe_duration = λ m p x s. refl;
  exception_counts-inc_exception = λ l s. refl;
  exception_counts-inc_request = λ l s. refl;
  exception_counts-observe_duration = λ m p x s. refl;
}

-- an application with one route, which fails on the third request
abbrev sample_app : HttpRequest → ℕ → Reply × ℕ
sample_app request n = (
  record {
    outcome =
        if n == 2
        then raised "ValueError"
        else responded (record { status_code = 200; headers = [] });
    route = some request.url_path;
  },
  n + 1,
)

abbrev pub get : String → HttpRequest
get path = record { method = "GET"; url_path = path; request_id = none }

abbrev visits : List HttpRequest
visits = get "/health" ∷ get "/metrics" ∷ get "/health" ∷ get "/" ∷ []

-- The variables are kept as they are.
abbrev pub plain_contextvars : Contextvars
plain_contextvars = record {
  State = Context;
  clear_contextvars = λ s. [];
  bind_contextvars = update_items;
  get_contextvars = λ s. s;
}

plain_contextvars-AreContextvars : AreContextvars plain_contextvars
plain_contextvars-AreContextvars = record {
  get-clear_contextvars = λ s. refl;
  get-bind_contextvars = λ values s. refl;
}

abbrev pub watch : Watch memory_registry plain_contextvars
watch = record {
  metrics = record { requests = []; exceptions = [] };
  log = [];
  bound = [];
  readings = 0;
  draws = 0;
}

abbrev seen : Counters
seen =
    (dispatch_all {R = memory_registry} {V = plain_contextvars} (λ i j. 1) (λ x. x * 1000) decimal
      sample_app visits (0, watch)).1.metrics

snapshot-dispatch_all_example :
    let v = get_http_metrics_snapshot memory_registry seen in
    (v.total_requests ≡ 3)
    × (v.success_responses ≡ 2)
    × (v.client_error_responses ≡ 0)
    × (v.server_error_responses ≡ 1)
    × (v.exception_count ≡ 1)
unfolding dispatch_all dispatch count_request count_exception replies route_path decimal
    get_http_metrics_snapshot tally total_duration total_exceptions
snapshot-dispatch_all_example =
    snapshot-dispatch_all memory_registry-IsRegistry (λ i j. 1) (λ x. x * 1000) decimal sample_app
      visits 0 watch refl refl (omega arith)

-- The one before has left its path bound.
abbrev stale : Watch memory_registry plain_contextvars
stale = record watch { bound = ("path", "/login") ∷ [] }

dispatch-traced_example :
    let (outcome, (_, watch')) =
      dispatch {R = memory_registry} {V = plain_contextvars}
        (λ i j. 1)
        (λ x. x * 1000)
        decimal
        sample_app
        (get "/health")
        (0, stale) in
    (watch'.log
      ≡ record {
        event = request_completed 200 1000 "/health";
        context = ("request_id", "0") ∷ ("method", "GET") ∷ ("path", "/health") ∷ [];
      }
        ∷ [])
    × ((response : HttpResponse)
        → outcome ≡ responded response
        → header "x-request-id" response.headers ≡ some "0")
    × (plain_contextvars.get_contextvars watch'.bound ≡ [])
unfolding dispatch route_path count_request count_exception decimal
dispatch-traced_example =
    dispatch-traced plain_contextvars-AreContextvars {R = memory_registry} (λ i j. 1)
      (λ x. x * 1000) decimal sample_app (get "/health") 0 stale
