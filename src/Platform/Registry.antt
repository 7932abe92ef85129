-- ===== src/Platform/Registry.antt =====
-- prometheus_client: the counters and the histogram of the application, and what `collect` yields of
-- them; and the floats that they are made of.
use Prim.Native.String.{◌++◌ as ◌++ₜ◌}
use Prim.Native.Nat.{◌^◌}
use smart_auth_with_kubernat.Prelude.{
  ℕ, true, ◌≤◌, String, ◌≡◌, ◌↔◌, Bool, ◌&&◌, List, [], ◌∷◌, Comparable, ◌==◌, string_eq, ==_iff,
  arith,
}
use smart_auth_with_kubernat.Prelude.Counts.{bump}

pub record RequestLabels : Type 0 where
  pub method : String
  pub path : String
  pub status : String

pub record ExceptionLabels : Type 0 where
  pub method : String
  pub path : String
  pub exception_type : String

abbrev pub same_request : RequestLabels → RequestLabels → Bool
same_request a b = a.method == b.method && a.path == b.path && a.status == b.status

pub same_request_iff : (a b : RequestLabels) → (same_request a b ≡ true) ↔ (a ≡ b)
same_request_iff a b =
    ground (arith, ==_iff a.method b.method, ==_iff a.path b.path, ==_iff a.status b.status)

instance abbrev pub request_labels_eq : Comparable RequestLabels
request_labels_eq = record { same = same_request; same_iff = same_request_iff }

abbrev pub same_exception : ExceptionLabels → ExceptionLabels → Bool
same_exception a b =
    a.method == b.method && a.path == b.path && a.exception_type == b.exception_type

pub same_exception_iff : (a b : ExceptionLabels) → (same_exception a b ≡ true) ↔ (a ≡ b)
same_exception_iff a b = ground (
  arith,
  ==_iff a.method b.method,
  ==_iff a.path b.path,
  ==_iff a.exception_type b.exception_type,
)

instance abbrev pub exception_labels_eq : Comparable ExceptionLabels
exception_labels_eq = record { same = same_exception; same_iff = same_exception_iff }

-- `{"method": ..., "path": ..., "status": ...}`
abbrev pub request_dict : RequestLabels → List (String × String)
request_dict l = ("method", l.method) ∷ ("path", l.path) ∷ ("status", l.status) ∷ []

abbrev pub exception_dict : ExceptionLabels → List (String × String)
exception_dict l =
    ("method", l.method) ∷ ("path", l.path) ∷ ("exception_type", l.exception_type) ∷ []

-- the floats that the metrics use: `int(x)`, `x + y`, and `round((x / n) * 1000, 2)`
pub record Floats : Type 1 where
  pub Float : Type 0
  pub zero_float : Float
  pub add_float : Float → Float → Float
  pub int : Float → ℕ
  pub average_ms : Float → ℕ → Float

module _ (F : Floats) where
  pub record Sample : Type 0 where
    pub name : String
    pub labels : List (String × String)
    pub value : F.Float

pub record Registry : Type 1 where
  pub floats : Floats
  pub open floats use *
  pub State : Type 0
  -- REQUEST_COUNT.labels(...).inc() and so on
  pub inc_request : RequestLabels → State → State
  pub inc_exception : ExceptionLabels → State → State
  pub observe_duration : String → String → Float → State → State
  -- the samples of every metric of REQUEST_COUNT.collect() and so on
  pub request_samples : State → List (Sample floats)
  pub exception_samples : State → List (Sample floats)
  pub duration_samples : State → List (Sample floats)
  -- how often each child has been incremented, in the order of their creation
  pub request_counts : State → List (RequestLabels × ℕ)
  pub exception_counts : State → List (ExceptionLabels × ℕ)
  -- the value of a child after so many increments, and when it was created
  pub value_of : ℕ → Float
  pub created : State → Float

-- the sample of a counter's value, then that of its creation time
abbrev pub counter_samples {ℓ} :
    {L : Type ℓ} (R : Registry)
    → String
    → (L → List (String × String))
    → R.State
    → List (L × ℕ)
    → List (Sample R.floats)
counter_samples R name dict s [] = []
counter_samples R name dict s ((l, n) ∷ m) =
    record { name = name ++ₜ "_total"; labels = dict l; value = R.value_of n }
    ∷ record { name = name ++ₜ "_created"; labels = dict l; value = R.created s }
    ∷ counter_samples R name dict s m

-- up to here a float holds every integer
abbrev pub exact : ℕ
exact = 2 ^ 53

pub record IsRegistry (R : Registry) : Type 0 where
  pub int-value_of : (n : ℕ) → n ≤ exact → R.int (R.value_of n) ≡ n
  pub request_samples_lem :
      (s : R.State)
      → R.request_samples s
        ≡ counter_samples R "smart_auth_http_requests" request_dict s (R.request_counts s)
  pub exception_samples_lem :
      (s : R.State)
      → R.exception_samples s
        ≡ counter_samples R "smart_auth_http_exceptions" exception_dict s (R.exception_counts s)
  pub request_counts-inc_request :
      (l : RequestLabels) (s : R.State)
      → R.request_counts (R.inc_request l s) ≡ bump l 1 (R.request_counts s)
  pub request_counts-inc_exception :
      (l : ExceptionLabels) (s : R.State)
      → R.request_counts (R.inc_exception l s) ≡ R.request_counts s
  pub request_counts-observe_duration :
      (m p : String) (x : R.Float) (s : R.State)
      → R.request_counts (R.observe_duration m p x s) ≡ R.request_counts s
  pub exception_counts-inc_exception :
      (l : ExceptionLabels) (s : R.State)
      → R.exception_counts (R.inc_exception l s) ≡ bump l 1 (R.exception_counts s)
  pub exception_counts-inc_request :
      (l : RequestLabels) (s : R.State)
      → R.exception_counts (R.inc_request l s) ≡ R.exception_counts s
  pub exception_counts-observe_duration :
      (m p : String) (x : R.Float) (s : R.State)
      → R.exception_counts (R.observe_duration m p x s) ≡ R.exception_counts s
