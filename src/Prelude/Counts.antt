-- ===== src/Prelude/Counts.antt =====
-- Dictionaries of counts, in the order of their first keys: Python's `defaultdict(int)`.
use Prim.Native.Nat.{ℕ, suc, ◌+◌, ◌≤◌}
use mathlib.Core.Path.{◌≡◌}
use mathlib.Core.Bool.{Bool, true}
use mathlib.Core.List.{List, [], ◌∷◌}
use native.Mathlib.Omega.{arith}
use smart_auth_with_kubernat.Prelude.Tests.{Comparable, ◌==◌, ==_iff, if◌then◌else◌}

abbrev pub length {ℓ} : {A : Type ℓ} → List A → ℕ
length [] = 0
length (x ∷ l) = suc (length l)

-- how many elements a test holds of
abbrev pub count_if {ℓ} : {A : Type ℓ} → (A → Bool) → List A → ℕ
count_if p [] = 0
count_if p (x ∷ l) = (if p x then 1 else 0) + count_if p l

-- the sum of the counts whose key a test holds of
abbrev pub weigh {ℓ} : {K : Type ℓ} → (K → Bool) → List (K × ℕ) → ℕ
weigh p [] = 0
weigh p ((k, n) ∷ m) = (if p k then n else 0) + weigh p m

abbrev pub every {ℓ} : {K : Type ℓ} → K → Bool
every k = true

-- `counts[k] += n`
abbrev pub bump {ℓ} : {K : Type ℓ} ⦃c : Comparable K⦄ → K → ℕ → List (K × ℕ) → List (K × ℕ)
bump k n [] = (k, n) ∷ []
bump k n ((j, i) ∷ m) = if j == k then (j, i + n) ∷ m else (j, i) ∷ bump k n m

module _ {ℓ} {K : Type ℓ} ⦃c : Comparable K⦄ where
  pub weigh-bump :
      (p : K → Bool) (k : K) (n : ℕ) (m : List (K × ℕ))
      → weigh p (bump k n m) ≡ weigh p m + (if p k then n else 0)
  weigh-bump p k n [] = ground arith
  weigh-bump p k n ((j, i) ∷ m) = ground (arith, ==_iff j k, weigh-bump p k n m)

module _ {ℓ} {K : Type ℓ} where
  -- What a test holds of is no more than there is.
  pub weigh-le : (p : K → Bool) (m : List (K × ℕ)) → weigh p m ≤ weigh every m
  weigh-le p [] = omega arith
  weigh-le p ((k, n) ∷ m) = ground (arith, weigh-le p m)
