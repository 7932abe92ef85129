-- ===== src/Metrics.antt =====
-- app/core/metrics.py: the summary of the HTTP metrics.
pub mod Sums
pub mod Top
use smart_auth_with_kubernat.Prelude.{
  ℕ, zero, suc, ◌+◌, String, List, [], ◌∷◌, ◌==◌, string_eq, nat_eq, leb, if◌then◌else◌,
}
use text.Mathlib.Text.{starts_with}
use smart_auth_with_kubernat.Prelude.Counts.{bump, weigh}
use smart_auth_with_kubernat.Platform.Registry.{Floats, Sample, Registry}

-- `sample.labels.get(name, "unknown")`
abbrev pub label : String → List (String × String) → String
label name [] = "unknown"
label name ((k, v) ∷ l) = if k == name then v else label name l

-- the variables that the first loop writes
pub record Requests : Type 0 where
  pub total_requests : ℕ
  pub by_status : List (String × ℕ)
  pub by_route : List (String × ℕ)

-- those of the second
pub record Durations (F : Floats) : Type 0 where
  pub duration_sum : F.Float
  pub duration_count : ℕ

pub record Snapshot (F : Floats) : Type 0 where
  pub total_requests : ℕ
  pub success_responses : ℕ
  pub client_error_responses : ℕ
  pub server_error_responses : ℕ
  pub exception_count : ℕ
  pub average_latency_ms : F.Float
  pub top_routes : List (String × ℕ)

module _ {F : Floats} where
  -- `for metric in REQUEST_COUNT.collect(): for sample in metric.samples: ...`
  unfoldable pub tally : List (Sample F) → Requests → Requests
  tally [] r = r
  tally (s ∷ l) r =
      let value = F.int s.value in
      tally l (
        if s.name == "smart_auth_http_requests_total"
        then (record {
          total_requests = r.total_requests + value;
          by_status = bump (label "status" s.labels) value r.by_status;
          by_route = bump (label "path" s.labels) value r.by_route;
        })
        else r)

  unfoldable pub total_duration : List (Sample F) → Durations F → Durations F
  total_duration [] d = d
  total_duration (s ∷ l) d = total_duration l (
      if s.name == "smart_auth_http_request_duration_seconds_sum"
      then record d { duration_sum = F.add_float d.duration_sum s.value }
      else if s.name == "smart_auth_http_request_duration_seconds_count"
      then record d { duration_count = d.duration_count + F.int s.value }
      else d)

  unfoldable pub total_exceptions : List (Sample F) → ℕ → ℕ
  total_exceptions [] n = n
  total_exceptions (s ∷ l) n =
      total_exceptions l
        (if s.name == "smart_auth_http_exceptions_total" then n + F.int s.value else n)

-- `sorted(items, key=lambda item: item[1], reverse=True)`: Python's sort is stable, so that it keeps
-- the order of equal counts. It is written as an insertion.
unfoldable pub place : String × ℕ → List (String × ℕ) → List (String × ℕ)
place r [] = r ∷ []
place r (q ∷ l) = if leb q.1 r.1 then r ∷ q ∷ l else q ∷ place r l

unfoldable pub busiest : List (String × ℕ) → List (String × ℕ)
unfolding place
busiest [] = []
busiest (r ∷ l) = place r (busiest l)

-- `l[:n]`
abbrev pub take {ℓ} : {A : Type ℓ} → ℕ → List A → List A
take zero l = []
take (suc n) [] = []
take (suc n) (x ∷ l) = x ∷ take n l

-- `sum(count for status, count in requests_by_status.items() if status.startswith(digit))`
abbrev pub responses : String → List (String × ℕ) → ℕ
responses digit = weigh (λ status. starts_with status digit)

module _ (R : Registry) where
  unfoldable pub get_http_metrics_snapshot : R.State → Snapshot R.floats
  get_http_metrics_snapshot s =
      let r =
        tally (R.request_samples s)
          (record { total_requests = 0; by_status = []; by_route = [] }) in
      let d =
        total_duration (R.duration_samples s)
          (record { duration_sum = R.zero_float; duration_count = 0 }) in
      record {
        total_requests = r.total_requests;
        success_responses = responses "2" r.by_status;
        client_error_responses = responses "4" r.by_status;
        server_error_responses = responses "5" r.by_status;
        exception_count = total_exceptions (R.exception_samples s) 0;
        average_latency_ms =
            if d.duration_count == 0
            then R.zero_float
            else R.average_ms d.duration_sum d.duration_count;
        top_routes = take 6 (busiest r.by_route);
      }
