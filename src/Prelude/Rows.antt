-- ===== src/Prelude/Rows.antt =====
-- Tables as lists of rows: what a query selects, and what an update leaves.
use mathlib.Core.Path.{◌≡◌, refl}
use mathlib.Core.Bool.{Bool, true}
use mathlib.Core.Option
use mathlib.Core.Option.{Option, none, some}
use mathlib.Core.List.{List, [], ◌∷◌}
use Prim.Native.String.{String}
use native.Mathlib.Omega.{arith}
use smart_auth_with_kubernat.Prelude.Tests.{if◌then◌else◌, ◌==◌, string_eq}

module _ {ℓ} {A : Type ℓ} where
  -- the first row that a condition holds of
  abbrev pub find? : (A → Bool) → List A → Option A
  find? p [] = none
  find? p (x ∷ xs) = if p x then some x else find? p xs

  -- `f` on the rows that a condition holds of
  abbrev pub update : (A → Bool) → (A → A) → List A → List A
  update p f [] = []
  update p f (x ∷ xs) = (if p x then f x else x) ∷ update p f xs

  pub find?_sound : (p : A → Bool) (l : List A) (x : A) → find? p l ≡ some x → p x ≡ true
  find?_sound p [] x e = ground arith
  find?_sound p (y ∷ l) x e = ground (arith, find?_sound p l x)

  -- An update that keeps what the query reads is made on the row that is found.
  pub find?-update :
      (p q : A → Bool) (f : A → A) (l : List A)
      → ((x : A) → q (f x) ≡ q x)
      → find? q (update p f l) ≡ Option.map (λ x. if p x then f x else x) (find? q l)
  find?-update p q f [] keeps = refl
  find?-update p q f (x ∷ l) keeps = ground (arith, keeps x, find?-update p q f l keeps)

-- `d[name] = value`, the dict as its items
abbrev pub set_item : String → String → List (String × String) → List (String × String)
set_item name value [] = (name, value) ∷ []
set_item name value ((k, v) ∷ l) =
    if k == name then (name, value) ∷ l else (k, v) ∷ set_item name value l
