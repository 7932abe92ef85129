-- ===== src/Constraints/Keys.antt =====
-- Rows that are looked up by a key: where no two clash, their order does not matter.
use mathlib.Core.List.{Memᴰ}
use mathlib.Core.Quot
use mathlib.Core.Quot.{Quot, Quot-set}
use smart_auth_with_kubernat.Prelude.{
  Bool, true, false, Option, some, List, [], ◌∷◌, ◌≡◌, sym, ap, ◌∙◌, ◌↔◌, arith, is_some,
  Bool-cases, Option-cases, inl, inr,
}
use smart_auth_with_kubernat.Constraints.{Distinct}
use smart_auth_with_kubernat.Prelude.Rows.{find?, find?_sound}

module _ {A : Type 0} where
  pub find?-Memᴰ : (p : A → Bool) (l : List A) (e : A) → find? p l ≡ some e → Memᴰ e l
  find?-Memᴰ p [] e h = absurd (ground arith)
  find?-Memᴰ p (x ∷ l) e h = elim (Bool-cases (p x)) [
    | inl here ↦ Memᴰ.head (ground arith)
    | inr there ↦ Memᴰ.tail (find?-Memᴰ p l e (ground arith))
  ]

  missed-Memᴰ :
      (q : A → Bool) (l : List A) (e : A) → is_some (find? q l) ≡ false → Memᴰ e l → q e ≡ false
  missed-Memᴰ q [] e h m = elim m [ ]
  missed-Memᴰ q (x ∷ l) e h (Memᴰ.head same) = ground (arith, ap q same)
  missed-Memᴰ q (x ∷ l) e h (Memᴰ.tail m) = ground (arith, missed-Memᴰ q l e)

  -- Where no two elements pass together, an element that passes is the one that is found.
  pub Memᴰ-find? :
      (clash : A → A → Bool) (p : A → Bool)
      → ((x y : A) → p x ≡ true → p y ≡ true → clash x y ≡ true)
      → (l : List A) (e : A) → Distinct clash l
      → Memᴰ e l
      → p e ≡ true
      → find? p l ≡ some e
  Memᴰ-find? clash p sound [] e apart m h = elim m [ ]
  Memᴰ-find? clash p sound (x ∷ l) e (fresh, apart) (Memᴰ.head same) h = ground (arith, ap p same)
  Memᴰ-find? clash p sound (x ∷ l) e (fresh, apart) (Memᴰ.tail m) h =
      let ih = Memᴰ-find? clash p sound l e apart m h in
      let no_clash = missed-Memᴰ (clash x) l e fresh m in
      elim (Bool-cases (p x)) [
        | inl both ↦ absurd (ground (arith, sound x e both h))
        | inr other ↦ rw other ih
      ]

-- A test by a key: rows that pass it together clash.
abbrev pub IsKey : {A : Type 0} → (A → A → Bool) → (A → Bool) → Type 0
IsKey {A} clash p = (x y : A) → p x ≡ true → p y ≡ true → clash x y ≡ true

module _ {A : Type 0} (clash : A → A → Bool) where
  -- rows of which no two clash
  abbrev pub Keyed : Type 0
  Keyed = (l : List A) × Distinct clash l

  -- The same rows, in whatever order.
  abbrev pub SameRows : Keyed → Keyed → Type 0
  SameRows k k' = (x : A) → Memᴰ x k.0 ↔ Memᴰ x k'.0

  moved :
      (p : A → Bool)
      → IsKey clash p
      → (k k' : Keyed) → SameRows k k'
      → (x : A) → find? p k.0 ≡ some x
      → find? p k'.0 ≡ some x
  moved p key k k' same x found =
      Memᴰ-find? clash p key k'.0 x k'.1 ((same x).0 (find?-Memᴰ p k.0 x found))
        (find?_sound p k.0 x found)

  pub find?-SameRows :
      (p : A → Bool) → IsKey clash p → (k k' : Keyed) → SameRows k k' → find? p k.0 ≡ find? p k'.0
  find?-SameRows p key k k' same = elim (Option-cases (find? p k.0)) [
    | inr (x, found) ↦ found ∙ sym (moved p key k k' same x found)
    | inl gone ↦ elim (Option-cases (find? p k'.0)) [
      | inl gone' ↦ gone ∙ sym gone'
      | inr (x, found) ↦ moved p key k' k (λ y. ((same y).1, (same y).0)) x found ∙ sym found
    ]
  ]

  -- a table: its rows, their order forgotten
  abbrev pub Table : Type 0
  Table = Quot SameRows

  -- the row that a test by a key holds of
  unfoldable pub look_up : IsSet (Option A) → (p : A → Bool) → IsKey clash p → Table → Option A
  look_up set p key = Quot.lift set (λ k. find? p k.0) (find?-SameRows p key)
