-- ===== src/Constraints.antt =====
-- The constraints of the three tables, as app/models/user.py and the migration under
-- alembic/versions declare them: primary keys, unique columns, and foreign keys.
pub mod Keys
use smart_auth_with_kubernat.Prelude.{
  ℕ, ◌≡◌, refl, ◌∙◌, inl, inr, Bool, true, false, List, [], ◌∷◌, arith, is_some, Bool-cases,
}
use mathlib.Core.Path.{fun_ext}
use smart_auth_with_kubernat.Prelude.Rows.{find?, update}
use smart_auth_with_kubernat.Models.{
  User, OAuthAccount, RefreshToken, Assignment, full_name, assign,
}
use smart_auth_with_kubernat.Platform.Database.{
  Rows, has_id, has_token_id, revoke_at, user_clashes, account_clashes, token_clashes,
}

-- No row clashes with a later one.
abbrev pub Distinct {ℓ} : {A : Type ℓ} → (A → A → Bool) → List A → Type 0
Distinct clash [] = Unit
Distinct clash (x ∷ xs) = (is_some (find? (clash x) xs) ≡ false) × Distinct clash xs

-- The user that a row names is there.
abbrev pub Owned {ℓ} : {A : Type ℓ} → (A → ℕ) → List User → List A → Type 0
Owned owner users [] = Unit
Owned owner users (x ∷ xs) =
    (is_some (find? (has_id (owner x)) users) ≡ true) × Owned owner users xs

pub record IsConsistent (r : Rows) : Type 0 where
  pub users_distinct : Distinct user_clashes r.users
  pub accounts_distinct : Distinct account_clashes r.accounts
  pub tokens_distinct : Distinct token_clashes r.tokens
  pub accounts_owned : Owned OAuthAccount.user_id r.users r.accounts
  pub tokens_owned : Owned RefreshToken.user_id r.users r.tokens

is_some-find?-update {ℓ} :
    {A : Type ℓ} (p q : A → Bool) (f : A → A) (l : List A)
    → ((x : A) → q (f x) ≡ q x)
    → is_some (find? q (update p f l)) ≡ is_some (find? q l)
is_some-find?-update p q f [] keeps = refl
is_some-find?-update p q f (x ∷ l) keeps =
    ground (arith, keeps x, is_some-find?-update p q f l keeps)

-- An update that keeps the keys keeps them distinct.
Distinct-update {ℓ} :
    {A : Type ℓ} (clash : A → A → Bool) (p : A → Bool) (f : A → A) (l : List A)
    → ((x y : A) → clash x (f y) ≡ clash x y)
    → ((x y : A) → clash (f x) y ≡ clash x y)
    → Distinct clash l
    → Distinct clash (update p f l)
Distinct-update clash p f [] right left h = tt
Distinct-update clash p f (x ∷ l) right left (fresh, h) =
    let rest = Distinct-update clash p f l right left h in
    let kept = is_some-find?-update p (clash x) f l (right x) in
    elim (Bool-cases (p x)) [
      | inl hit ↦ rw (hit, fun_ext (left x), kept) (fresh, rest)
      | inr miss ↦ rw (miss, kept) (fresh, rest)
    ]

-- More users, or users with the same ids, own what they owned.
Owned-users {ℓ} :
    {A : Type ℓ} (owner : A → ℕ) (before after : List User) (l : List A)
    → ((i : ℕ) → is_some (find? (has_id i) before) ≡ true → is_some (find? (has_id i) after) ≡ true)
    → Owned owner before l
    → Owned owner after l
Owned-users owner before after [] keeps h = tt
Owned-users owner before after (x ∷ l) keeps (here, h) =
    (keeps (owner x) here, Owned-users owner before after l keeps h)

Owned-update {ℓ} :
    {A : Type ℓ} (owner : A → ℕ) (users : List User) (p : A → Bool) (f : A → A) (l : List A)
    → ((x : A) → owner (f x) ≡ owner x)
    → Owned owner users l
    → Owned owner users (update p f l)
Owned-update owner users p f [] keeps h = tt
Owned-update owner users p f (x ∷ l) keeps (here, h) =
    let rest = Owned-update owner users p f l keeps h in
    elim (Bool-cases (p x)) [
      | inl hit ↦ rw (hit, keeps x) (here, rest)
      | inr miss ↦ rw miss (here, rest)
    ]

pub has_id-assign : (i t : ℕ) (a : Assignment) (u : User) → has_id i (assign t a u) ≡ has_id i u
has_id-assign i t (full_name v) u = ground arith
has_id-assign i t _ u = ground arith

clashes-assign_right :
    (t : ℕ) (a : Assignment) (u v : User) → user_clashes u (assign t a v) ≡ user_clashes u v
clashes-assign_right t (full_name x) u v = ground arith
clashes-assign_right t _ u v = ground arith

clashes-assign_left :
    (t : ℕ) (a : Assignment) (u v : User) → user_clashes (assign t a u) v ≡ user_clashes u v
clashes-assign_left t (full_name x) u v = ground arith
clashes-assign_left t _ u v = ground arith

-- What a transaction may do to the tables: the abstract steps that the services take.
pub data Change (r : Rows) : Rows → Type 0 where
  new_user :
      (u : User)
      → is_some (find? (user_clashes u) r.users) ≡ false
      → Change r (record r { users = u ∷ r.users })
  new_account :
      (a : OAuthAccount)
      → is_some (find? (account_clashes a) r.accounts) ≡ false
      → is_some (find? (has_id a.user_id) r.users) ≡ true
      → Change r (record r { accounts = a ∷ r.accounts })
  new_token :
      (t : RefreshToken)
      → is_some (find? (token_clashes t) r.tokens) ≡ false
      → is_some (find? (has_id t.user_id) r.users) ≡ true
      → Change r (record r { tokens = t ∷ r.tokens })
  assigned :
      (i t : ℕ) (a : Assignment)
      → Change r (record r { users = update (has_id i) (assign t a) r.users })
  token_revoked :
      (i now : ℕ)
      → Change r (record r { tokens = update (has_token_id i) (revoke_at now) r.tokens })

pub data Changes (r : Rows) : Rows → Type 0 where
  here : Changes r r
  next : {r' r'' : Rows} → Changes r r' → Change r' r'' → Changes r r''

pub Changes-trans : {r r' r'' : Rows} → Changes r r' → Changes r' r'' → Changes r r''
Changes-trans h here = h
Changes-trans h (next k c) = next (Changes-trans h k) c

-- Every change keeps the constraints.
pub Change-IsConsistent : {r r' : Rows} → Change r r' → IsConsistent r → IsConsistent r'
Change-IsConsistent {r} (new_user u fresh) h = record {
  users_distinct = (fresh, h.users_distinct);
  accounts_distinct = h.accounts_distinct;
  tokens_distinct = h.tokens_distinct;
  accounts_owned = Owned-users _ r.users (u ∷ r.users) _ (λ i e. ground arith) h.accounts_owned;
  tokens_owned = Owned-users _ r.users (u ∷ r.users) _ (λ i e. ground arith) h.tokens_owned;
}
Change-IsConsistent (new_account a fresh owner) h = record {
  users_distinct = h.users_distinct;
  accounts_distinct = (fresh, h.accounts_distinct);
  tokens_distinct = h.tokens_distinct;
  accounts_owned = (owner, h.accounts_owned);
  tokens_owned = h.tokens_owned;
}
Change-IsConsistent (new_token t fresh owner) h = record {
  users_distinct = h.users_distinct;
  accounts_distinct = h.accounts_distinct;
  tokens_distinct = (fresh, h.tokens_distinct);
  accounts_owned = h.accounts_owned;
  tokens_owned = (owner, h.tokens_owned);
}
Change-IsConsistent {r} (assigned i t a) h =
    let kept : (j : ℕ)
        → is_some (find? (has_id j) r.users) ≡ true
        → is_some (find? (has_id j) (update (has_id i) (assign t a) r.users)) ≡ true =
      λ j e.
        is_some-find?-update (has_id i) (has_id j) (assign t a) r.users (has_id-assign j t a) ∙ e in
    record {
      users_distinct =
          Distinct-update user_clashes (has_id i) (assign t a) r.users (clashes-assign_right t a)
            (clashes-assign_left t a) h.users_distinct;
      accounts_distinct = h.accounts_distinct;
      tokens_distinct = h.tokens_distinct;
      accounts_owned = Owned-users _ r.users _ _ kept h.accounts_owned;
      tokens_owned = Owned-users _ r.users _ _ kept h.tokens_owned;
    }
Change-IsConsistent {r} (token_revoked i now) h = record {
  users_distinct = h.users_distinct;
  accounts_distinct = h.accounts_distinct;
  tokens_distinct =
      Distinct-update token_clashes (has_token_id i) (revoke_at now) r.tokens (λ x y. refl)
        (λ x y. refl) h.tokens_distinct;
  accounts_owned = h.accounts_owned;
  tokens_owned =
      Owned-update _ r.users (has_token_id i) (revoke_at now) r.tokens (λ x. refl) h.tokens_owned;
}

pub Changes-IsConsistent : {r r' : Rows} → Changes r r' → IsConsistent r → IsConsistent r'
Changes-IsConsistent here h = h
Changes-IsConsistent (next k c) h = Change-IsConsistent c (Changes-IsConsistent k h)
