-- ===== src/AuthService/Invariant.antt =====
-- Whatever a call of `AuthenticationService` is given, and however it ends, it leaves a settled
-- session: nothing is pending, and the committed rows meet the constraints of the tables.
use smart_auth_with_kubernat.Prelude.{ℕ, String, Option, none, some}
use smart_auth_with_kubernat.AuthService.{
  register_user, insert_user, find_refresh_record, revoke_now, authenticate_user, issue_token_pair,
  check_refresh_record, check_refresh_token, rotate_refresh_token, refresh_access_pair,
  logout_refresh_token, revoke_found,
}
use smart_auth_with_kubernat.Config.{Settings}
use smart_auth_with_kubernat.Exec.Ends.{Ends, ends_rules, Ends-commit, Ends-modify}
use smart_auth_with_kubernat.Models.{User, RegisterRequest, RefreshToken, NewUser}
use smart_auth_with_kubernat.Platform.{Platform, IsDocumented}
use smart_auth_with_kubernat.Platform.Database.{Rows}
use smart_auth_with_kubernat.Repositories.{add_user, add_token, revoke}
use smart_auth_with_kubernat.Security.{
  hash_password, create_access_token, create_refresh_token, decode_token,
}
use smart_auth_with_kubernat.Settled.{
  IsSettled, IsPending, IsSettled-IsPending, add_user-IsPending, add_token-IsPending,
  assign_revoked_at-IsPending,
}

module _ {P : Platform} {before : Rows} where
  Ends-hash_password :
      (s : String)
      → Ends P before (IsSettled P before) (IsSettled P before) (hash_password {P = P} s)
  unfolding hash_password
  Ends-hash_password s = search ends_rules

  Ends-create_access_token :
      (settings : Settings) (s : String)
      → Ends P before
          (IsSettled P before)
          (IsSettled P before)
          (create_access_token {P = P} settings s)
  unfolding create_access_token
  Ends-create_access_token settings s = search ends_rules

  Ends-create_refresh_token :
      (settings : Settings) (s : String)
      → Ends P before
          (IsSettled P before)
          (IsSettled P before)
          (create_refresh_token {P = P} settings s)
  unfolding create_refresh_token
  Ends-create_refresh_token settings s = search ends_rules

  pub Ends-decode_token :
      (settings : Settings) (t e : String)
      → Ends P before (IsSettled P before) (IsSettled P before) (decode_token {P = P} settings t e)
  unfolding decode_token
  Ends-decode_token settings t e = search ends_rules

  Ends-check_refresh_record :
      (subject : String) (found : Option (RefreshToken × Option User))
      → Ends P before
          (IsSettled P before)
          (IsSettled P before)
          (check_refresh_record {P = P} subject found)
  unfolding check_refresh_record
  Ends-check_refresh_record subject found = search ends_rules depth 14

module _ {P : Platform} (L : IsDocumented P) {before : Rows} where
  Ends-add_user :
      (n : NewUser) → Ends P before (IsSettled P before) (IsPending P before) (add_user {P = P} n)
  unfolding add_user
  Ends-add_user n =
      search (ends_rules, Ends-modify, add_user-IsPending L, IsSettled-IsPending) depth 9

  pub Ends-insert_user :
      (payload : RegisterRequest)
      → Ends P before (IsSettled P before) (IsSettled P before) (insert_user {P = P} payload)
  unfolding insert_user
  Ends-insert_user payload =
      search (ends_rules, Ends-hash_password, Ends-add_user, Ends-commit L) depth 12

  pub Ends-register_user :
      (payload : RegisterRequest)
      → Ends P before (IsSettled P before) (IsSettled P before) (register_user {P = P} payload)
  unfolding register_user
  Ends-register_user payload = search (ends_rules, Ends-insert_user) depth 9

  pub Ends-authenticate_user :
      (email password : String)
      → Ends P before
          (IsSettled P before)
          (IsSettled P before)
          (authenticate_user {P = P} email password)
  unfolding authenticate_user
  Ends-authenticate_user email password = search ends_rules depth 9

  Ends-add_token :
      (i : ℕ) (jti : String) (t : ℕ)
      → Ends P before (IsSettled P before) (IsPending P before) (add_token {P = P} i jti t)
  unfolding add_token
  Ends-add_token i jti t =
      search (ends_rules, Ends-modify, add_token-IsPending L, IsSettled-IsPending) depth 9

  Ends-revoke :
      (t : RefreshToken) (now : ℕ)
      → Ends P before (IsSettled P before) (IsPending P before) (revoke {P = P} t now)
  Ends-revoke t now =
      Ends-modify _ (λ s h. assign_revoked_at-IsPending L t.id now s (IsSettled-IsPending h))

  pub Ends-revoke_now :
      (t : RefreshToken)
      → Ends P before (IsSettled P before) (IsSettled P before) (revoke_now {P = P} t)
  Ends-revoke_now t = search (ends_rules, Ends-revoke, Ends-commit L) depth 9

  pub Ends-revoke_found :
      (found : Option RefreshToken)
      → Ends P before (IsSettled P before) (IsSettled P before) (revoke_found {P = P} found)
  Ends-revoke_found none = search ends_rules
  Ends-revoke_found (some t) = Ends-revoke_now t

  module _ (settings : Settings) where
    pub Ends-issue_token_pair :
        (user : User)
        → Ends P before
            (IsSettled P before)
            (IsSettled P before)
            (issue_token_pair {P = P} settings user)
    unfolding issue_token_pair
    Ends-issue_token_pair user =
        search
          (
            ends_rules,
            Ends-create_access_token,
            Ends-create_refresh_token,
            Ends-add_token,
            Ends-commit L,
          )
          depth 12

    pub Ends-check_refresh_token :
        (token : String)
        → Ends P before
            (IsSettled P before)
            (IsSettled P before)
            (check_refresh_token {P = P} settings token)
    unfolding check_refresh_token
    Ends-check_refresh_token token =
        search (ends_rules, Ends-decode_token, Ends-check_refresh_record) depth 9

    pub Ends-rotate_refresh_token :
        (checked : RefreshToken × User)
        → Ends P before
            (IsSettled P before)
            (IsSettled P before)
            (rotate_refresh_token {P = P} settings checked)
    unfolding rotate_refresh_token
    Ends-rotate_refresh_token checked =
        search (ends_rules, Ends-revoke_now, Ends-issue_token_pair) depth 9

    pub Ends-refresh_access_pair :
        (token : String)
        → Ends P before
            (IsSettled P before)
            (IsSettled P before)
            (refresh_access_pair {P = P} settings token)
    unfolding refresh_access_pair
    Ends-refresh_access_pair token =
        search (ends_rules, Ends-check_refresh_token, Ends-rotate_refresh_token)

    pub Ends-find_refresh_record :
        (token : String)
        → Ends P before
            (IsSettled P before)
            (IsSettled P before)
            (find_refresh_record {P = P} settings token)
    unfolding find_refresh_record
    Ends-find_refresh_record token = search (ends_rules, Ends-decode_token) depth 9

    pub Ends-logout_refresh_token :
        (token : String)
        → Ends P before
            (IsSettled P before)
            (IsSettled P before)
            (logout_refresh_token {P = P} settings token)
    unfolding logout_refresh_token
    Ends-logout_refresh_token token =
        search (ends_rules, Ends-find_refresh_record, Ends-revoke_found)
