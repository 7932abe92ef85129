-- ===== src/Repositories.antt =====
-- app/repositories/auth.py: the queries and writes of the three tables.
pub mod Tables
use smart_auth_with_kubernat.Prelude.{ℕ, String, Option, none, some}
use smart_auth_with_kubernat.Exec.{
  Exec, exception, pure, or_raise, query, modify, draw, ◌>>=◌, ◌>>◌,
}
use smart_auth_with_kubernat.Models.{
  User, NewUser, user_row, OAuthAccount, RefreshToken, Assignment,
}
use smart_auth_with_kubernat.Platform.{Platform}

module _ (P : Platform) where
  -- `selectinload(RefreshToken.user)`: the token's user comes with it.
  abbrev pub with_user : P.Session → Option RefreshToken → Option (RefreshToken × Option User)
  with_user s none = none
  with_user s (some t) = some (t, P.get_user t.user_id s)

module _ {P : Platform} where
  abbrev pub get_by_email : String → Exec P (Option User)
  get_by_email email = query (P.select_user email)

  abbrev pub get_by_id : ℕ → Exec P (Option User)
  get_by_id i = query (P.get_user i)

  -- `session.add(user)`. The default of the id is drawn here and not at the flush that follows:
  -- nothing is drawn between.
  unfoldable pub add_user : NewUser → Exec P User
  add_user new = do
    n ← draw
    created_at ← query P.server_now
    let user = user_row new (P.uuid4 n) created_at
    modify (P.add_user user)
    pure user

  -- `session.refresh(user)` reads the row again.
  abbrev pub refresh : User → Exec P User
  refresh user = do
    found ← query (P.get_user user.id)
    or_raise found (exception "InvalidRequestError")

  -- `session.add(RefreshToken(user_id, jti, expires_at))`
  unfoldable pub add_token : ℕ → String → ℕ → Exec P Unit
  add_token user_id jti expires_at = do
    n ← draw
    created_at ← query P.server_now
    modify (
        P.add_token (record {
          id = P.uuid4 n;
          user_id = user_id;
          jti = jti;
          expires_at = expires_at;
          revoked_at = none;
          created_at = created_at;
        }))

  abbrev pub get_by_jti : String → Exec P (Option RefreshToken)
  get_by_jti jti = query (P.select_token jti)

  abbrev pub get_with_user : String → Exec P (Option (RefreshToken × Option User))
  get_with_user jti = query (λ s. with_user P s (P.select_token jti s))

  abbrev pub revoke : RefreshToken → ℕ → Exec P Unit
  revoke refresh_token revoked_at = modify (P.assign_revoked_at refresh_token.id revoked_at)

  abbrev pub get_by_provider_identity : String → String → Exec P (Option OAuthAccount)
  get_by_provider_identity provider subject = query (P.select_account provider subject)

  -- `session.add(OAuthAccount(user_id, provider, provider_user_id))`
  unfoldable pub add_account : ℕ → String → String → Exec P Unit
  add_account user_id provider subject = do
    n ← draw
    created_at ← query P.server_now
    modify (
        P.add_account (record {
          id = P.uuid4 n;
          user_id = user_id;
          provider = provider;
          provider_user_id = subject;
          created_at = created_at;
        }))

  -- `user.<column> = value`
  abbrev pub set_user : User → Assignment → Exec P Unit
  set_user user a = modify (P.assign_user user.id a)
