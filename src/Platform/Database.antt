-- ===== src/Platform/Database.antt =====
-- PostgreSQL behind SQLAlchemy's `AsyncSession`: the calls that the repositories make, and what
-- they are documented to do. `rows` is what the session's queries see, its own pending rows
-- included (autoflush); `saved` is what the last commit left.
use smart_auth_with_kubernat.Prelude.{
  ℕ, String, ◌≡◌, Bool, false, not, ◌&&◌, ◌||◌, Option, some, List, ◌∷◌, ◌==◌, nat_eq, string_eq,
  is_some,
}
use smart_auth_with_kubernat.Prelude.Rows.{find?, update}
use smart_auth_with_kubernat.Models.{
  User, OAuthAccount, RefreshToken, Assignment, assign, user_fits, account_fits, token_fits,
  assignment_fits,
}

pub record Rows : Type 0 where
  pub users : List User
  pub accounts : List OAuthAccount
  pub tokens : List RefreshToken

abbrev pub has_id : ℕ → User → Bool
has_id i u = u.id == i

abbrev pub has_email : String → User → Bool
has_email e u = u.email == e

abbrev pub is_active_id : ℕ → User → Bool
is_active_id i u = u.id == i && u.is_active

abbrev pub has_jti : String → RefreshToken → Bool
has_jti j t = t.jti == j

abbrev pub has_token_id : ℕ → RefreshToken → Bool
has_token_id i t = t.id == i

abbrev pub has_identity : String → String → OAuthAccount → Bool
has_identity provider subject a = a.provider == provider && a.provider_user_id == subject

abbrev pub revoke_at : ℕ → RefreshToken → RefreshToken
revoke_at now t = record t { revoked_at = some now }

-- the primary key and the unique column of `users`
abbrev pub user_clashes : User → User → Bool
user_clashes u v = v.id == u.id || v.email == u.email

-- the primary key and `uq_oauth_provider_user`
abbrev pub account_clashes : OAuthAccount → OAuthAccount → Bool
account_clashes a b = b.id == a.id || has_identity a.provider a.provider_user_id b

-- the primary key and the unique column of `refresh_tokens`
abbrev pub token_clashes : RefreshToken → RefreshToken → Bool
token_clashes t v = v.id == t.id || v.jti == t.jti

pub record Database : Type 1 where
  pub Session : Type 0
  pub rows : Session → Rows
  pub saved : Session → Rows
  -- the time that `func.now()` yields
  pub server_now : Session → ℕ
  -- select(User).where(User.email == email), session.get(User, id), and so on
  pub select_user : String → Session → Option User
  pub get_user : ℕ → Session → Option User
  pub select_active_user : ℕ → Session → Option User
  pub select_token : String → Session → Option RefreshToken
  pub select_account : String → String → Session → Option OAuthAccount
  -- session.add(row)
  pub add_user : User → Session → Session
  pub add_account : OAuthAccount → Session → Session
  pub add_token : RefreshToken → Session → Session
  -- an assignment to an attribute of a loaded row, by the row's id
  pub assign_user : ℕ → Assignment → Session → Session
  pub assign_revoked_at : ℕ → ℕ → Session → Session
  -- whether the next flush raises, and otherwise flush and commit
  pub rejects : Session → Bool
  pub flush : Session → Session
  pub commit : Session → Session
  pub rollback : Session → Session

-- What a write shows to later queries, and what it leaves committed.
pub record IsDatabase (D : Database) : Type 0 where
  pub select_user_lem :
      (e : String) (s : D.Session) → D.select_user e s ≡ find? (has_email e) (D.rows s).users
  pub get_user_lem : (i : ℕ) (s : D.Session) → D.get_user i s ≡ find? (has_id i) (D.rows s).users
  pub select_active_user_lem :
      (i : ℕ) (s : D.Session) → D.select_active_user i s ≡ find? (is_active_id i) (D.rows s).users
  pub select_token_lem :
      (j : String) (s : D.Session) → D.select_token j s ≡ find? (has_jti j) (D.rows s).tokens
  pub select_account_lem :
      (p i : String) (s : D.Session)
      → D.select_account p i s ≡ find? (has_identity p i) (D.rows s).accounts
  pub rows-add_user :
      (u : User) (s : D.Session)
      → D.rows (D.add_user u s) ≡ record (D.rows s) { users = u ∷ (D.rows s).users }
  pub rows-add_account :
      (a : OAuthAccount) (s : D.Session)
      → D.rows (D.add_account a s) ≡ record (D.rows s) { accounts = a ∷ (D.rows s).accounts }
  pub rows-add_token :
      (t : RefreshToken) (s : D.Session)
      → D.rows (D.add_token t s) ≡ record (D.rows s) { tokens = t ∷ (D.rows s).tokens }
  pub rows-assign_user :
      (i : ℕ) (a : Assignment) (s : D.Session)
      → D.rows (D.assign_user i a s) ≡ record (D.rows s) {
        users = update (has_id i) (assign (D.server_now s) a) (D.rows s).users;
      }
  pub rows-assign_revoked_at :
      (i now : ℕ) (s : D.Session)
      → D.rows (D.assign_revoked_at i now s)
        ≡ record (D.rows s) { tokens = update (has_token_id i) (revoke_at now) (D.rows s).tokens }
  pub rows-flush : (s : D.Session) → D.rows (D.flush s) ≡ D.rows s
  pub rows-commit : (s : D.Session) → D.rows (D.commit s) ≡ D.rows s
  pub rows-rollback : (s : D.Session) → D.rows (D.rollback s) ≡ D.saved s
  pub saved-add_user : (u : User) (s : D.Session) → D.saved (D.add_user u s) ≡ D.saved s
  pub saved-add_account :
      (a : OAuthAccount) (s : D.Session) → D.saved (D.add_account a s) ≡ D.saved s
  pub saved-add_token : (t : RefreshToken) (s : D.Session) → D.saved (D.add_token t s) ≡ D.saved s
  pub saved-assign_user :
      (i : ℕ) (a : Assignment) (s : D.Session) → D.saved (D.assign_user i a s) ≡ D.saved s
  pub saved-assign_revoked_at :
      (i now : ℕ) (s : D.Session) → D.saved (D.assign_revoked_at i now s) ≡ D.saved s
  pub saved-flush : (s : D.Session) → D.saved (D.flush s) ≡ D.saved s
  pub saved-commit : (s : D.Session) → D.saved (D.commit s) ≡ D.rows s
  pub saved-rollback : (s : D.Session) → D.saved (D.rollback s) ≡ D.saved s
  pub rejects-add_user :
      (u : User) (s : D.Session)
      → D.rejects (D.add_user u s)
        ≡ (not (user_fits u) || is_some (find? (user_clashes u) (D.rows s).users) || D.rejects s)
  -- a foreign key wants the user to be there
  pub rejects-add_account :
      (a : OAuthAccount) (s : D.Session)
      → D.rejects (D.add_account a s) ≡ (
          not (account_fits a)
          || is_some (find? (account_clashes a) (D.rows s).accounts)
          || not (is_some (find? (has_id a.user_id) (D.rows s).users))
          || D.rejects s)
  pub rejects-add_token :
      (t : RefreshToken) (s : D.Session)
      → D.rejects (D.add_token t s) ≡ (
          not (token_fits t)
          || is_some (find? (token_clashes t) (D.rows s).tokens)
          || not (is_some (find? (has_id t.user_id) (D.rows s).users))
          || D.rejects s)
  pub rejects-assign_user :
      (i : ℕ) (a : Assignment) (s : D.Session)
      → D.rejects (D.assign_user i a s) ≡ (not (assignment_fits a) || D.rejects s)
  pub rejects-assign_revoked_at :
      (i now : ℕ) (s : D.Session) → D.rejects (D.assign_revoked_at i now s) ≡ D.rejects s
  pub rejects-flush : (s : D.Session) → D.rejects (D.flush s) ≡ D.rejects s
  pub rejects-commit : (s : D.Session) → D.rejects (D.commit s) ≡ D.rejects s
  pub rejects-rollback : (s : D.Session) → D.rejects (D.rollback s) ≡ false
