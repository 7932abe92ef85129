-- ===== src/Metrics/Sums.antt =====
-- What the summary counts is what the counters hold.
use smart_auth_with_kubernat.Prelude.{
  ℕ, ◌+◌, ◌≤◌, String, ◌≡◌, sym, ap, ◌∙◌, inl, inr, Bool-cases, true, false, Bool, List, [], ◌∷◌,
  arith, string_eq, if◌then◌else◌, refl,
}
use Prim.Native.String.{slice, len}
use text.Mathlib.Text.{starts_with, ◌==◌ as str_eq}
use text.Mathlib.TextEquality.{eq_iff as str_eq_iff}
use smart_auth_with_kubernat.Prelude.Counts.{bump, weigh, every, weigh-bump}
use smart_auth_with_kubernat.Metrics.{Requests, tally, total_exceptions, get_http_metrics_snapshot}
use smart_auth_with_kubernat.Platform.Registry.{
  Registry, IsRegistry, RequestLabels, ExceptionLabels, request_dict, exception_dict,
  counter_samples, exact,
}

module _ {R : Registry} (L : IsRegistry R) (s : R.State) where
  -- the loop over the request counts, whatever was summed before
  pub tally_lem :
      (m : List (RequestLabels × ℕ)) (r : Requests) (p : String → Bool)
      → weigh every m ≤ exact
      → let r' = tally (counter_samples R "smart_auth_http_requests" request_dict s m) r in
        (r'.total_requests ≡ r.total_requests + weigh every m)
        × (weigh p r'.by_status ≡ weigh p r.by_status + weigh (λ l. p l.status) m)
        × (weigh p r'.by_route ≡ weigh p r.by_route + weigh (λ l. p l.path) m)
  unfolding tally
  tally_lem [] r p small = omega arith
  tally_lem ((l, n) ∷ m) r p small =
      let value = L.int-value_of n (omega arith) in
      let rest =
        tally_lem m
          (record {
            total_requests = r.total_requests + n;
            by_status = bump l.status n r.by_status;
            by_route = bump l.path n r.by_route;
          })
          p (omega arith) in
      rw (value, tally)
        (ground
          (arith, rest, weigh-bump p l.status n r.by_status, weigh-bump p l.path n r.by_route))

  exceptions_lem :
      (m : List (ExceptionLabels × ℕ)) (n : ℕ)
      → weigh every m ≤ exact
      → total_exceptions (counter_samples R "smart_auth_http_exceptions" exception_dict s m) n
        ≡ n + weigh every m
  unfolding total_exceptions
  exceptions_lem [] n small = omega arith
  exceptions_lem ((l, i) ∷ m) n small =
      let value = L.int-value_of i (omega arith) in
      let rest = exceptions_lem m (n + i) (omega arith) in
      rw (value, total_exceptions) (omega (arith, rest))

-- the requests with a status of a class
abbrev pub of_class : String → RequestLabels → Bool
of_class digit l = starts_with l.status digit

module _ {R : Registry} (L : IsRegistry R) where
  -- While its counts are exact, the summary counts the requests of the counters, those of each class
  -- of answers, and the exceptions.
  pub snapshot_lem :
      (s : R.State)
      → weigh every (R.request_counts s) ≤ exact
      → weigh every (R.exception_counts s) ≤ exact
      → let v = get_http_metrics_snapshot R s in
        (v.total_requests ≡ weigh every (R.request_counts s))
        × (v.success_responses ≡ weigh (of_class "2") (R.request_counts s))
        × (v.client_error_responses ≡ weigh (of_class "4") (R.request_counts s))
        × (v.server_error_responses ≡ weigh (of_class "5") (R.request_counts s))
        × (v.exception_count ≡ weigh every (R.exception_counts s))
  unfolding get_http_metrics_snapshot
  snapshot_lem s few few_raised =
      let none_yet : Requests = record { total_requests = 0; by_status = []; by_route = [] } in
      let m = R.request_counts s in
      let (total, success, _) = tally_lem L s m none_yet (λ c. starts_with c "2") few in
      let (_, client, _) = tally_lem L s m none_yet (λ c. starts_with c "4") few in
      let (_, server, _) = tally_lem L s m none_yet (λ c. starts_with c "5") few in
      let raised = exceptions_lem L s (R.exception_counts s) 0 few_raised in
      rw (L.request_samples_lem s, L.exception_samples_lem s)
        (
          omega (arith, total),
          omega (arith, success),
          omega (arith, client),
          omega (arith, server),
          omega (arith, raised),
        )

apart :
    (c x y : String)
    → ◌≡◌ {A = ℕ} (len x) (len y)
    → str_eq x y ≡ false
    → starts_with c x ≡ true
    → starts_with c y ≡ false
apart c x y same differ h = elim (Bool-cases (starts_with c y)) [
  | inl both ↦
      let first = (str_eq_iff (slice c 0 (len x)) x).0 h in
      let second = (str_eq_iff (slice c 0 (len y)) y).0 both in
      let equal = (str_eq_iff x y).1 (sym first ∙ ap (slice c 0) same ∙ second) in cc
  | inr other ↦ other
]

sum_apart :
    (a b c : Bool) (n : ℕ)
    → (a ≡ true → b ≡ false)
    → (a ≡ true → c ≡ false)
    → (b ≡ true → c ≡ false)
    → (if a then n else 0) + (if b then n else 0) + (if c then n else 0) ≤ n
sum_apart true b c n h k l = rw (h refl, k refl) (omega arith)
sum_apart false true c n h k l = rw (l refl) (omega arith)
sum_apart false false c n h k l = ground arith

-- A status is of one class at most.
classes_apart :
    (c : String) (n : ℕ)
    → (if starts_with c "2" then n else 0)
        + (if starts_with c "4" then n else 0)
        + (if starts_with c "5" then n else 0)
      ≤ n
classes_apart c n =
    sum_apart (starts_with c "2") (starts_with c "4") (starts_with c "5") n
      (apart c "2" "4" refl refl) (apart c "2" "5" refl refl) (apart c "4" "5" refl refl)

weigh_classes :
    (m : List (RequestLabels × ℕ))
    → weigh (of_class "2") m + weigh (of_class "4") m + weigh (of_class "5") m ≤ weigh every m
weigh_classes [] = omega arith
weigh_classes ((l, n) ∷ m) = omega (arith, classes_apart l.status n, weigh_classes m)

module _ {R : Registry} (L : IsRegistry R) where
  -- While its counts are exact, the summary's answers of the three classes are no more than its
  -- requests.
  pub classes-le-total :
      (s : R.State)
      → weigh every (R.request_counts s) ≤ exact
      → weigh every (R.exception_counts s) ≤ exact
      → let v = get_http_metrics_snapshot R s in
        v.success_responses + v.client_error_responses + v.server_error_responses ≤ v.total_requests
  classes-le-total s few few_raised =
      omega (arith, snapshot_lem L s few few_raised, weigh_classes (R.request_counts s))
