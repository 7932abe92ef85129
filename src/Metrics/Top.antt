-- ===== src/Metrics/Top.antt =====
-- The busiest routes of the summary: which they are, and in which order.
use mathlib.Core.List.{Perm}
use mathlib.Core.List.Perm
use smart_auth_with_kubernat.Prelude.{
  ℕ, zero, suc, ◌≤◌, String, List, [], ◌∷◌, ◌==◌, string_eq, nat_eq, if◌then◌else◌,
}
use smart_auth_with_kubernat.Platform.Registry.{Registry}

-- the entries' counts are at most `n`
abbrev pub AtMost : ℕ → List (String × ℕ) → Type 0
AtMost n [] = Unit
AtMost n (r ∷ l) = (r.1 ≤ n) × AtMost n l

abbrev pub Descending : List (String × ℕ) → Type 0
Descending [] = Unit
Descending (r ∷ l) = AtMost r.1 l × Descending l

abbrev pub drop {ℓ} : {A : Type ℓ} → ℕ → List A → List A
drop zero l = l
drop (suc n) [] = []
drop (suc n) (x ∷ l) = drop n l

-- the entries with one count, in their order
abbrev pub with_count : ℕ → List (String × ℕ) → List (String × ℕ)
with_count n [] = []
with_count n (r ∷ l) = if r.1 == n then r ∷ with_count n l else with_count n l
