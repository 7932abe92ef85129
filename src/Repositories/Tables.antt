-- ===== src/Repositories/Tables.antt =====
-- The queries of the repositories, on tables that forget the order of their rows.
use mathlib.Core.Quot
use mathlib.Core.HLevel.{hedberg}
use smart_auth_with_kubernat.Prelude.{
  ℕ, String, inl, inr, Bool-cases, Option, none, some, ◌≡◌, refl, sym, ap, ◌∙◌, arith, ◌==◌, ==_iff,
  string_eq, nat_eq,
}
use smart_auth_with_kubernat.Constraints.{IsConsistent}
use smart_auth_with_kubernat.Constraints.Keys.{IsKey, Table, look_up}
use smart_auth_with_kubernat.Exec.{ok, query}
use smart_auth_with_kubernat.Models.{User, OAuthAccount, RefreshToken}
use smart_auth_with_kubernat.Platform.{Platform, IsDocumented, World}
use smart_auth_with_kubernat.Platform.Database.{
  Rows, has_id, has_email, has_jti, has_identity, user_clashes, account_clashes, token_clashes,
}
use smart_auth_with_kubernat.Repositories.{
  with_user, get_by_email, get_by_id, get_by_jti, get_with_user, get_by_provider_identity,
}

String-discrete : Discrete String
String-discrete s t = elim (Bool-cases (s == t)) [
  | inl same ↦ yes ((==_iff s t).0 same)
  | inr other ↦ no (λ e. ground (arith, (==_iff s t).1 e))
]

String-set : IsSet String
String-set = hedberg String-discrete

User-set : IsSet (Option User)
User-set = hlevel (String-set)

OAuthAccount-set : IsSet (Option OAuthAccount)
OAuthAccount-set = hlevel (String-set)

RefreshToken-set : IsSet (Option RefreshToken)
RefreshToken-set = hlevel (String-set)

has_email-IsKey : (e : String) → IsKey user_clashes (has_email e)
has_email-IsKey e u v h k =
    ground (arith, ==_iff u.email e, ==_iff v.email e, ==_iff v.email u.email)

has_id-IsKey : (i : ℕ) → IsKey user_clashes (has_id i)
has_id-IsKey i u v h k = ground (arith, ==_iff u.id i, ==_iff v.id i, ==_iff v.id u.id)

has_jti-IsKey : (j : String) → IsKey token_clashes (has_jti j)
has_jti-IsKey j t v h k = ground (arith, ==_iff t.jti j, ==_iff v.jti j, ==_iff v.jti t.jti)

has_identity-IsKey : (p i : String) → IsKey account_clashes (has_identity p i)
has_identity-IsKey p i a b h k = ground (
  arith,
  ==_iff a.provider p,
  ==_iff b.provider p,
  ==_iff b.provider a.provider,
  ==_iff a.provider_user_id i,
  ==_iff b.provider_user_id i,
  ==_iff b.provider_user_id a.provider_user_id,
)

-- the tables of rows that meet their constraints
abbrev pub users_of : (r : Rows) → IsConsistent r → Table user_clashes
users_of r h = Quot.mk (r.users, h.users_distinct)

abbrev pub accounts_of : (r : Rows) → IsConsistent r → Table account_clashes
accounts_of r h = Quot.mk (r.accounts, h.accounts_distinct)

abbrev pub tokens_of : (r : Rows) → IsConsistent r → Table token_clashes
tokens_of r h = Quot.mk (r.tokens, h.tokens_distinct)

module _ {P : Platform} (L : IsDocumented P) where
  select_user-look_up :
      (e : String) (s : P.Session) (h : IsConsistent (P.rows s))
      → P.select_user e s
        ≡ look_up user_clashes User-set (has_email e) (has_email-IsKey e) (users_of (P.rows s) h)
  unfolding look_up
  select_user-look_up e s h = L.select_user_lem e s

  get_user-look_up :
      (i : ℕ) (s : P.Session) (h : IsConsistent (P.rows s))
      → P.get_user i s
        ≡ look_up user_clashes User-set (has_id i) (has_id-IsKey i) (users_of (P.rows s) h)
  unfolding look_up
  get_user-look_up i s h = L.get_user_lem i s

  select_token-look_up :
      (j : String) (s : P.Session) (h : IsConsistent (P.rows s))
      → P.select_token j s
        ≡ look_up token_clashes RefreshToken-set
            (has_jti j)
            (has_jti-IsKey j)
            (tokens_of (P.rows s) h)
  unfolding look_up
  select_token-look_up j s h = L.select_token_lem j s

  select_account-look_up :
      (p i : String) (s : P.Session) (h : IsConsistent (P.rows s))
      → P.select_account p i s
        ≡ look_up account_clashes OAuthAccount-set
            (has_identity p i)
            (has_identity-IsKey p i)
            (accounts_of (P.rows s) h)
  unfolding look_up
  select_account-look_up p i s h = L.select_account_lem p i s

  module _ (s s' : P.Session) (h : IsConsistent (P.rows s)) (h' : IsConsistent (P.rows s'))
      (users : users_of (P.rows s) h ≡ users_of (P.rows s') h') where
    get_user-same : (i : ℕ) → P.get_user i s ≡ P.get_user i s'
    get_user-same i =
        get_user-look_up i s h
        ∙ ap (look_up user_clashes User-set (has_id i) (has_id-IsKey i)) users
        ∙ sym (get_user-look_up i s' h')

    select_user-same : (e : String) → P.select_user e s ≡ P.select_user e s'
    select_user-same e =
        select_user-look_up e s h
        ∙ ap (look_up user_clashes User-set (has_email e) (has_email-IsKey e)) users
        ∙ sym (select_user-look_up e s' h')

    with_user-same : (found : Option RefreshToken) → with_user P s found ≡ with_user P s' found
    with_user-same none = refl
    with_user-same (some t) = ap (λ u. some (t, u)) (get_user-same t.user_id)

  -- Where two sessions see tables that meet their constraints and have the same rows, in whatever
  -- order, every query of the repositories has the same result in both.
  pub queries-order :
      (w w' : World P) (h : IsConsistent (P.rows w.session)) (h' : IsConsistent (P.rows w'.session))
      → users_of (P.rows w.session) h ≡ users_of (P.rows w'.session) h'
      → accounts_of (P.rows w.session) h ≡ accounts_of (P.rows w'.session) h'
      → tokens_of (P.rows w.session) h ≡ tokens_of (P.rows w'.session) h'
      → (email jti provider subject : String) (i : ℕ)
      → ((get_by_email email w).0 ≡ (get_by_email email w').0)
        × ((get_by_id i w).0 ≡ (get_by_id i w').0)
        × ((get_by_jti jti w).0 ≡ (get_by_jti jti w').0)
        × ((get_with_user jti w).0 ≡ (get_with_user jti w').0)
        × ((get_by_provider_identity provider subject w).0
            ≡ (get_by_provider_identity provider subject w').0)
  unfolding query
  queries-order w w' h h' users accounts tokens email jti provider subject i =
      let s = w.session in
      let s' = w'.session in
      let token : P.select_token jti s ≡ P.select_token jti s' =
        select_token-look_up jti s h
        ∙ ap (look_up token_clashes RefreshToken-set (has_jti jti) (has_jti-IsKey jti)) tokens
        ∙ sym (select_token-look_up jti s' h') in
      let account : P.select_account provider subject s ≡ P.select_account provider subject s' =
        select_account-look_up provider subject s h
        ∙ ap
            (look_up account_clashes OAuthAccount-set (has_identity provider subject)
              (has_identity-IsKey provider subject))
            accounts
        ∙ sym (select_account-look_up provider subject s' h') in
      (
        ap (λ u. ok u) (select_user-same s s' h h' users email),
        ap (λ u. ok u) (get_user-same s s' h h' users i),
        ap (λ t. ok t) token,
        ap (λ t. ok t)
            (with_user-same s s' h h' users (P.select_token jti s) ∙ ap (with_user P s') token),
        ap (λ a. ok a) account,
      )
