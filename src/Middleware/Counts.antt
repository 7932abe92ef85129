-- ===== src/Middleware/Counts.antt =====
-- The counters after any sequence of requests: each request but those for /metrics is counted once,
-- by its route and its status.
use smart_auth_with_kubernat.Prelude.{
  ℕ, ◌+◌, ◌≤◌, String, ◌≡◌, Bool, true, false, not, ◌&&◌, List, [], ◌∷◌, arith, ◌==◌, string_eq,
  if◌then◌else◌, inl, inr, Bool-cases, refl, sym,
}
use smart_auth_with_kubernat.Prelude.Counts.{weigh, every, weigh-bump, count_if}
use smart_auth_with_kubernat.Prelude.Texts.{decimal}
use smart_auth_with_kubernat.Metrics.{get_http_metrics_snapshot}
use smart_auth_with_kubernat.Metrics.Sums.{snapshot_lem, of_class}
use smart_auth_with_kubernat.Middleware.{
  HttpRequest, Outcome, responded, raised, interrupted, Reply, Watch, route_path, status_of,
  count_exception, count_request, dispatch, dispatch_all, replies,
}
use smart_auth_with_kubernat.Platform.Contextvars.{Contextvars}
use smart_auth_with_kubernat.Platform.Registry.{
  Registry, IsRegistry, RequestLabels, ExceptionLabels, exact, request_labels_eq,
  exception_labels_eq,
}

-- the labels that a request is counted under
abbrev pub labels_of : HttpRequest × Reply → RequestLabels
labels_of (request, reply) = record {
  method = request.method;
  path = route_path request reply.route;
  status = decimal (status_of reply.outcome);
}

-- it is not the metrics' own route
abbrev pub is_counted : HttpRequest × Reply → Bool
is_counted (request, reply) = not (route_path request reply.route == "/metrics")

-- an `Exception`, and no other `BaseException`
abbrev pub has_raised : Outcome → Bool
has_raised (responded response) = false
has_raised (raised name) = true
has_raised (interrupted name) = false

-- a request that is counted, with labels that a test holds of
abbrev pub counted_as : (RequestLabels → Bool) → HttpRequest × Reply → Bool
counted_as p h = is_counted h && p (labels_of h)

abbrev pub counted_raise : HttpRequest × Reply → Bool
counted_raise (request, reply) = is_counted (request, reply) && has_raised reply.outcome

module _ {R : Registry} (L : IsRegistry R) where
  count_exception_lem :
      (p : RequestLabels → Bool) (request : HttpRequest) (path : String) (o : Outcome) (s : R.State)
      → let s' = count_exception R request path o s in
        (weigh p (R.request_counts s') ≡ weigh p (R.request_counts s))
        × (weigh every (R.exception_counts s')
            ≡ weigh every (R.exception_counts s)
              + (if not (path == "/metrics") && has_raised o then 1 else 0))
  unfolding count_exception
  count_exception_lem p request path (responded response) s = ground arith
  count_exception_lem p request path (interrupted name) s = ground arith
  count_exception_lem p request path (raised name) s =
      let l : ExceptionLabels = record {
        method = request.method;
        path = path;
        exception_type = name;
      } in
      elim (Bool-cases (path == "/metrics")) [
        | inl own ↦ rw own (omega arith)
        | inr other ↦
            rw (other, L.request_counts-inc_exception l s, L.exception_counts-inc_exception l s)
              (refl, weigh-bump every l 1 (R.exception_counts s))
      ]

  count_request_lem :
      (p : RequestLabels → Bool) (request : HttpRequest) (path : String) (o : Outcome) (x : R.Float)
      (s : R.State)
      → let s' = count_request R request path o x s in
        let l : RequestLabels = record {
          method = request.method;
          path = path;
          status = decimal (status_of o);
        } in
        (weigh p (R.request_counts s')
          ≡ weigh p (R.request_counts s) + (if not (path == "/metrics") && p l then 1 else 0))
        × (weigh every (R.exception_counts s') ≡ weigh every (R.exception_counts s))
  unfolding count_request
  count_request_lem p request path o x s =
      let l : RequestLabels = record {
        method = request.method;
        path = path;
        status = decimal (status_of o);
      } in
      elim (Bool-cases (path == "/metrics")) [
        | inl own ↦ rw own (omega arith)
        | inr other ↦
            rw
              (
                other,
                L.request_counts-observe_duration request.method path x (R.inc_request l s),
                L.exception_counts-observe_duration request.method path x (R.inc_request l s),
                L.request_counts-inc_request l s,
                L.exception_counts-inc_request l s,
              )
              (weigh-bump p l 1 (R.request_counts s), refl)
      ]

module _ {R : Registry} {V : Contextvars} (L : IsRegistry R) (seconds : ℕ → ℕ → R.Float)
    (rounded_ms : R.Float → R.Float) (uuid4_text : ℕ → String) {W : Type 0}
    (call_next : HttpRequest → W → Reply × W) where
  -- the world after a request
  abbrev after : HttpRequest → W × Watch R V → W × Watch R V
  after request s = (dispatch seconds rounded_ms uuid4_text call_next request s).1

  -- the counts of one request
  dispatch_lem :
      (p : RequestLabels → Bool) (request : HttpRequest) (w : W) (watch : Watch R V)
      → let h : HttpRequest × Reply = (request, (call_next request w).0) in
        let (w', watch') = after request (w, watch) in
        (weigh p (R.request_counts watch'.metrics)
          ≡ weigh p (R.request_counts watch.metrics) + (if counted_as p h then 1 else 0))
        × (weigh every (R.exception_counts watch'.metrics)
            ≡ weigh every (R.exception_counts watch.metrics) + (if counted_raise h then 1 else 0))
        × (w' ≡ (call_next request w).1)
  unfolding dispatch
  dispatch_lem p request w watch =
      let reply = (call_next request w).0 in
      let path = route_path request reply.route in
      let s = count_exception R request path reply.outcome watch.metrics in
      let x = seconds watch.readings (watch.readings + 1) in
      let (same, raises) = count_exception_lem L p request path reply.outcome watch.metrics in
      let (counts, kept) = count_request_lem L p request path reply.outcome x s in
      (omega (arith, same, counts), omega (arith, raises, kept), refl)

  dispatch_all_lem :
      (p : RequestLabels → Bool) (requests : List HttpRequest) (w : W) (watch : Watch R V)
      → let m =
          (dispatch_all seconds rounded_ms uuid4_text call_next requests (w, watch)).1.metrics in
        let handled = replies call_next requests w in
        (weigh p (R.request_counts m)
          ≡ weigh p (R.request_counts watch.metrics) + count_if (counted_as p) handled)
        × (weigh every (R.exception_counts m)
            ≡ weigh every (R.exception_counts watch.metrics) + count_if counted_raise handled)
  unfolding dispatch_all replies
  dispatch_all_lem p [] w watch = omega arith
  dispatch_all_lem p (request ∷ requests) w watch =
      let (w', watch') = after request (w, watch) in
      let (counts, raises, same) = dispatch_lem p request w watch in
      let rest = dispatch_all_lem p requests w' watch' in
      rw (sym same) (omega (arith, counts, rest), omega (arith, raises, rest))

raises-le-counted :
    (l : List (HttpRequest × Reply)) → count_if counted_raise l ≤ count_if is_counted l
raises-le-counted [] = omega arith
raises-le-counted ((request, reply) ∷ l) = ground (arith, raises-le-counted l)

counted_as-every :
    (l : List (HttpRequest × Reply)) → count_if (counted_as every) l ≡ count_if is_counted l
counted_as-every [] = refl
counted_as-every ((request, reply) ∷ l) = ground (arith, counted_as-every l)

module _ {R : Registry} {V : Contextvars} (L : IsRegistry R) (seconds : ℕ → ℕ → R.Float)
    (rounded_ms : R.Float → R.Float) (uuid4_text : ℕ → String) {W : Type 0}
    (call_next : HttpRequest → W → Reply × W) where
  -- After any sequence of requests to a fresh process, of which at most 2 ^ 53 are counted, the
  -- summary gives the number of those that were not for /metrics, of those answered with each class
  -- of status, and of those that raised an `Exception`, where a request that ended without a response
  -- counts as a 500.
  pub snapshot-dispatch_all :
      (requests : List HttpRequest) (w : W) (watch : Watch R V)
      → R.request_counts watch.metrics ≡ []
      → R.exception_counts watch.metrics ≡ []
      → let handled = replies call_next requests w in
        count_if is_counted handled ≤ exact
        → let watch' =
            (dispatch_all seconds rounded_ms uuid4_text call_next requests (w, watch)).1 in
          let v = get_http_metrics_snapshot R watch'.metrics in
          (v.total_requests ≡ count_if is_counted handled)
          × (v.success_responses ≡ count_if (counted_as (of_class "2")) handled)
          × (v.client_error_responses ≡ count_if (counted_as (of_class "4")) handled)
          × (v.server_error_responses ≡ count_if (counted_as (of_class "5")) handled)
          × (v.exception_count ≡ count_if counted_raise handled)
  snapshot-dispatch_all requests w watch fresh none_raised few =
      let handled = replies call_next requests w in
      let counts = λ (p : RequestLabels → Bool).
        rw (fresh, none_raised) at
          (dispatch_all_lem L seconds rounded_ms uuid4_text call_next p requests w watch) in
      let (total, raises) = counts every in
      let (success, _) = counts (of_class "2") in
      let (client, _) = counts (of_class "4") in
      let (server, _) = counts (of_class "5") in
      let all = counted_as-every handled in
      let v =
        snapshot_lem L
          (dispatch_all seconds rounded_ms uuid4_text call_next requests (w, watch)).1.metrics
          (omega (arith, total, all)) (omega (arith, raises, raises-le-counted handled)) in
      (
        omega (arith, v, total, all),
        omega (arith, v, success),
        omega (arith, v, client),
        omega (arith, v, server),
        omega (arith, v, raises),
      )
