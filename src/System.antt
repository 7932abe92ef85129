-- ===== src/System.antt =====
-- app/api/v1/system.py and app/api/v1/health.py: what the service says of itself, and the queries that
-- it passes on to Prometheus.
pub mod Configured
use Prim.Native.String.{◌++◌, count}
use smart_auth_with_kubernat.Prelude.{
  ℕ, ◌-◌, ◌/◌, String, Bool, not, ◌&&◌, ◌||◌, Option, none, some, List, [], ◌∷◌, ◌==◌, string_eq,
  nat_eq, leb, ltb, false, if◌then◌else◌,
}
use smart_auth_with_kubernat.Config.{Settings}
use smart_auth_with_kubernat.Exec.{
  Exec, Failure, Result, ok, err, http, exception, pure, raise, or_raise, raise_if, now, http_call,
  ◌>>=◌, ◌>>◌,
}
use smart_auth_with_kubernat.Metrics.{Snapshot, get_http_metrics_snapshot}
use smart_auth_with_kubernat.Platform.{Platform, World}
use smart_auth_with_kubernat.Platform.Http.{Json, HttpCall, get, HttpReply}
use smart_auth_with_kubernat.Platform.Redis.{micro}
use smart_auth_with_kubernat.Platform.Registry.{Registry, Floats}

pub record HealthCheck : Type 0 where
  pub status : String
  pub environment : String

unfoldable pub health_check : Settings → HealthCheck
health_check settings = record { status = "ok"; environment = settings.app_env }

pub record ServiceOverview : Type 0 where
  pub name : String
  pub status : String
  pub environment : String
  pub version : String
  pub debug : Bool
  pub uptime_seconds : ℕ
  pub api_prefix : String

pub record SecurityOverview : Type 0 where
  pub access_token_expire_minutes : ℕ
  pub refresh_token_expire_days : ℕ
  pub rate_limit_auth_requests : ℕ
  pub rate_limit_auth_window_seconds : ℕ
  pub cors_origins : List String

pub record OAuthOverview : Type 0 where
  pub google_configured : Bool
  pub github_configured : Bool

pub record LinksOverview : Type 0 where
  pub docs : String
  pub health : String
  pub metrics : String
  pub prometheus : Option String
  pub grafana : Option String

pub record SystemOverview (F : Floats) : Type 0 where
  pub service : ServiceOverview
  pub security : SecurityOverview
  pub oauth : OAuthOverview
  pub links : LinksOverview
  pub traffic : Snapshot F

-- `bool(client_id and client_secret)`
abbrev pub both_set : String → String → Bool
both_set client_id client_secret = not (client_id == "") && not (client_secret == "")

unfoldable pub oauth_overview : Settings → OAuthOverview
oauth_overview settings = record {
  google_configured = both_set settings.google_client_id settings.google_client_secret;
  github_configured = both_set settings.github_client_id settings.github_client_secret;
}

module _ {P : Platform} (R : Registry) (settings : Settings) (started_at : ℕ) where
  -- `max(0, int(time() - APP_STARTED_AT))`: the subtraction stops at 0 before it is cut to seconds.
  unfoldable pub system_overview : R.State → Exec P (SystemOverview R.floats)
  system_overview metrics = do
    let traffic = get_http_metrics_snapshot R metrics
    t ← now
    pure (record {
      service = record {
        name = settings.app_name;
        status = "healthy";
        environment = settings.app_env;
        version = "0.1.0";
        debug = settings.debug;
        uptime_seconds = (t - started_at) / micro;
        api_prefix = settings.api_v1_prefix;
      };
      security = record {
        access_token_expire_minutes = settings.access_token_expire_minutes;
        refresh_token_expire_days = settings.refresh_token_expire_days;
        rate_limit_auth_requests = settings.rate_limit_auth_requests;
        rate_limit_auth_window_seconds = settings.rate_limit_auth_window_seconds;
        cors_origins = settings.cors_origins;
      };
      oauth = oauth_overview settings;
      links = record {
        docs = "/docs";
        health = settings.api_v1_prefix ++ "/health";
        metrics = "/metrics";
        prometheus = settings.prometheus_public_url;
        grafana = settings.grafana_public_url;
      };
      traffic = traffic;
    })

-- the times of a query: floats of seconds, which are read off the clock, put back an hour, and
-- written, and the HTTP client's query string of named values
pub record QueryTimes : Type 1 where
  pub Time : Type 0
  pub at_reading : ℕ → Time
  pub hour_before : Time → Time
  pub written : Time → String
  pub query_string : List (String × String) → String

-- FastAPI's answer to a value out of its bounds; its text is the model's own.
abbrev pub bad_query : Failure
bad_query = http 422 "String length is out of range"

abbrev pub or_time {ℓ} : {T : Type ℓ} → Option T → T → T
or_time none t = t
or_time (some s) t = s

-- The text of the exception is that of its class here.
abbrev pub unreachable : Failure
unreachable = http 503 "Prometheus unreachable: RequestError"

abbrev pub is_request_error : Failure → Bool
is_request_error (exception name) = name == "RequestError"
is_request_error _ = false

module _ {P : Platform} {A : Type 0} where
  abbrev handled_request : Result A × World P → Result A × World P
  handled_request (ok a, w) = (ok a, w)
  handled_request (err e, w) = if is_request_error e then (err unreachable, w) else (err e, w)

  -- `except httpx.RequestError as exc: raise HTTPException(503, ...)`
  unfoldable pub except_request_error : Exec P A → Exec P A
  except_request_error m w = handled_request (m w)

module _ {P : Platform} (T : QueryTimes) where
  unfoldable pub prometheus_query : String → Option T.Time → Option T.Time → String → Exec P Json
  prometheus_query query start end step = do
    raise_if (count query == 0 || ltb 512 (count query) || ltb 16 (count step)) bad_query
    t ← now
    let end_time = or_time end (T.at_reading t)
    let start_time = or_time start (T.hour_before (T.at_reading t))
    let params =
        ("query", query)
        ∷ ("start", T.written start_time)
        ∷ ("end", T.written end_time)
        ∷ ("step", step)
        ∷ []
    except_request_error (do
      resp ←
          http_call (get ("http://prometheus:9090/api/v1/query_range?" ++ T.query_string params) [])
      or_raise resp.body (exception "JSONDecodeError"))
