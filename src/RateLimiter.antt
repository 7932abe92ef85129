-- ===== src/RateLimiter.antt =====
-- app/core/rate_limiter.py: the address that a request counts for, and the fixed window that its
-- requests are counted in.
pub mod Retrying
pub mod Window
pub mod Failures
pub mod Reopening
pub mod Addresses
use Prim.Native.String.{◌++◌}
use smart_auth_with_kubernat.Prelude.{
  ℕ, String, Bool, false, ◌&&◌, ◌||◌, Option, none, some, List, [], ◌∷◌, ◌==◌, nat_eq, string_eq,
  is_set, is_some, ltb, if◌then◌else◌,
}
use smart_auth_with_kubernat.Prelude.Texts.{strip, before}
use smart_auth_with_kubernat.Config.{Settings}
use smart_auth_with_kubernat.Exec.{
  Exec, Failure, Result, ok, err, http, http_retry, exception, raise, skip, redis_command, ◌>>=◌,
  ◌>>◌,
}
use smart_auth_with_kubernat.Platform.{Platform, World}

-- what the limiter reads of a request
pub record Request : Type 0 where
  pub client_host : Option String
  pub forwarded_for : Option String

abbrev pub too_many : ℕ → Failure
too_many = http_retry 429 "Too many requests. Try again later."

abbrev pub unavailable : Failure
unavailable = http 503 "Authentication is temporarily unavailable. Please try again shortly."

abbrev pub is_redis_error : Failure → Bool
is_redis_error (exception name) = name == "RedisError"
is_redis_error _ = false

-- `max(retry_after, 0)`
abbrev pub at_least_zero : Option ℕ → ℕ
at_least_zero none = 0
at_least_zero (some n) = n

abbrev pub limit_key : String → String → String
limit_key scope identifier = "ratelimit:" ++ (scope ++ (":" ++ identifier))

module _ (P : Platform) where
  -- the loop over the networks; one that cannot be read is passed over
  pub in_networks : ℕ → List String → Bool
  in_networks ip [] = false
  in_networks ip (cidr ∷ cidrs) = elim (P.in_network ip cidr) [
    | none ↦ in_networks ip cidrs
    | some inside ↦ inside || in_networks ip cidrs
  ]

  trusted_host : Settings → Option String → Bool
  trusted_host settings none = false
  trusted_host settings (some host) = elim (P.ip_address host) [
    | none ↦ false
    | some proxy_ip ↦ in_networks proxy_ip settings.trusted_proxy_cidrs
  ]

  unfoldable pub is_trusted_proxy : Settings → Request → Bool
  unfolding trusted_host in_networks
  is_trusted_proxy settings request =
      settings.trust_proxy_headers && trusted_host settings request.client_host

  abbrev host_or_unknown : Option String → String
  host_or_unknown none = "unknown"
  host_or_unknown (some host) = host

  abbrev first_forwarded : String → String
  first_forwarded forwarded_for = strip (before b',' forwarded_for)

  abbrev pub forwarded : Option String → String
  forwarded none = ""
  forwarded (some s) = s

  unfoldable pub get_client_ip : Settings → Request → String
  get_client_ip settings request =
      let candidate = strip (before b',' (forwarded request.forwarded_for)) in
      if is_set request.forwarded_for
        && is_trusted_proxy settings request
        && is_some (P.ip_address candidate)
      then candidate
      else host_or_unknown request.client_host

module _ {P : Platform} where
  incr : String → Exec P ℕ
  incr key = redis_command (λ t s. P.incr_value t key s) (λ t s. P.incr t key s)

  expire : String → ℕ → Exec P Unit
  expire key seconds = redis_command (λ t s. tt) (λ t s. P.expire t key seconds s)

  ttl : String → Exec P (Option ℕ)
  ttl key = redis_command (λ t s. P.ttl t key s) (λ t s. s)

  abbrev pub handle_result : Result (Unit {0}) × World P → Exec P Unit → Result (Unit {0}) × World P
  handle_result (ok a, w) handler = (ok a, w)
  handle_result (err e, w) handler = if is_redis_error e then handler w else (err e, w)

  -- `try: m` `except RedisError: handler`
  except_redis_error : Exec P Unit → Exec P Unit → Exec P Unit
  except_redis_error m handler w = handle_result (m w) handler

  -- the body of the `try`
  count_request : String → ℕ → ℕ → Exec P Unit
  count_request key max_requests window_seconds = do
    current_count ← incr key
    (if current_count == 1 then expire key window_seconds else skip)
    if ltb max_requests current_count
        then (do retry_after ← ttl key; raise (too_many (at_least_zero retry_after)))
        else skip

  -- the dependency that `rate_limit(scope, max_requests, window_seconds)` returns
  unfoldable pub rate_limit : Settings → String → ℕ → ℕ → Request → Exec P Unit
  unfolding incr expire ttl except_redis_error count_request
  rate_limit settings scope max_requests window_seconds request =
      except_redis_error
        (count_request (limit_key scope (get_client_ip P settings request)) max_requests
          window_seconds)
        (if settings.rate_limit_fail_closed then raise unavailable else skip)
