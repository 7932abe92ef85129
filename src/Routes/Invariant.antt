-- ===== src/Routes/Invariant.antt =====
-- Whatever requests are served, the tables keep their constraints.
use smart_auth_with_kubernat.Prelude.{ℕ, false, String, Option, List, [], ◌∷◌, ◌≡◌, arith}
use smart_auth_with_kubernat.AuthService.Invariant.{
  Ends-register_user, Ends-authenticate_user, Ends-issue_token_pair, Ends-refresh_access_pair,
  Ends-logout_refresh_token, Ends-decode_token,
}
use smart_auth_with_kubernat.Config.{Settings}
use smart_auth_with_kubernat.Constraints.{IsConsistent, here, Changes-IsConsistent}
use smart_auth_with_kubernat.Deps.{in_session, get_current_user}
use smart_auth_with_kubernat.Exec.{redis_command, ◌>>=◌}
use smart_auth_with_kubernat.Exec.Ends.{Ends, Ends-reads, Ends-settles, ends_rules}
use smart_auth_with_kubernat.Models.{RegisterRequest, LoginRequest}
use smart_auth_with_kubernat.OAuthService.{build_authorization_url}
use smart_auth_with_kubernat.OAuthService.Exchange.{Ends-exchange_code_for_identity}
use smart_auth_with_kubernat.OAuthService.Invariant.{
  Ends-get_or_create_oauth_user, Ends-link_oauth_account_to_user,
}
use smart_auth_with_kubernat.Platform.{Platform, IsDocumented, World}
use smart_auth_with_kubernat.Platform.Database.{Rows}
use smart_auth_with_kubernat.RateLimiter.{Request, rate_limit}
use smart_auth_with_kubernat.Routes.{
  Call, post_register, post_login, post_refresh, post_logout, get_me, get_oauth_login,
  get_oauth_link, get_oauth_callback, get_oauth_link_callback, oauth_callback, oauth_link_callback,
  auth_limit, register, login, me, oauth_login, oauth_link, handle, serve, serve_all,
}
use smart_auth_with_kubernat.Settled.{IsSettled, IsSettled-IsPending, rollback-IsSettled}

module _ {P : Platform} (settings : Settings) where
  pub session-rate_limit :
      (scope : String) (n k : ℕ) (request : Request) (w : World P)
      → (rate_limit {P = P} settings scope n k request w).1.session ≡ w.session
  unfolding rate_limit redis_command ◌>>=◌
  session-rate_limit scope n k request w = ground arith

module _ {P : Platform} (settings : Settings) {before : Rows} where
  pub Ends-auth_limit :
      (request : Request)
      → Ends P before
          (IsSettled P before)
          (IsSettled P before)
          (auth_limit {P = P} settings request)
  unfolding auth_limit
  Ends-auth_limit request = Ends-reads _ (session-rate_limit settings _ _ _ request)

  Ends-build_authorization_url :
      (provider flow : String) (user_id : Option String)
      → Ends P before
          (IsSettled P before)
          (IsSettled P before)
          (build_authorization_url {P = P} settings provider flow user_id)
  unfolding build_authorization_url
  Ends-build_authorization_url provider flow user_id = search ends_rules depth 14

  Ends-get_current_user :
      (credentials : Option String)
      → Ends P before
          (IsSettled P before)
          (IsSettled P before)
          (get_current_user {P = P} settings credentials)
  unfolding get_current_user
  Ends-get_current_user credentials = search (ends_rules, Ends-decode_token) depth 14

  pub Ends-me :
      (credentials : Option String)
      → Ends P before (IsSettled P before) (IsSettled P before) (me {P = P} settings credentials)
  unfolding me
  Ends-me credentials = search (ends_rules, Ends-get_current_user)

  pub Ends-oauth_login :
      (provider : String)
      → Ends P before
          (IsSettled P before)
          (IsSettled P before)
          (oauth_login {P = P} settings provider)
  unfolding oauth_login
  Ends-oauth_login provider = search (ends_rules, Ends-build_authorization_url)

  pub Ends-oauth_link :
      (provider : String) (credentials : Option String)
      → Ends P before
          (IsSettled P before)
          (IsSettled P before)
          (oauth_link {P = P} settings provider credentials)
  unfolding oauth_link
  Ends-oauth_link provider credentials =
      search (ends_rules, Ends-get_current_user, Ends-build_authorization_url) depth 9

module _ {P : Platform} (L : IsDocumented P) (settings : Settings) {before : Rows} where
  Ends-register :
      (payload : RegisterRequest)
      → Ends P before (IsSettled P before) (IsSettled P before) (register {P = P} settings payload)
  unfolding register
  Ends-register payload = search (ends_rules, Ends-register_user L, Ends-issue_token_pair L)

  Ends-login :
      (payload : LoginRequest)
      → Ends P before (IsSettled P before) (IsSettled P before) (login {P = P} settings payload)
  unfolding login
  Ends-login payload = search (ends_rules, Ends-authenticate_user L, Ends-issue_token_pair L)

  Ends-oauth_callback :
      (provider code state : String)
      → Ends P before
          (IsSettled P before)
          (IsSettled P before)
          (oauth_callback {P = P} settings provider code state)
  unfolding oauth_callback
  Ends-oauth_callback provider code state =
      search
        (
          ends_rules,
          Ends-exchange_code_for_identity settings,
          Ends-get_or_create_oauth_user L,
          Ends-issue_token_pair L settings,
        )
        depth 12

  Ends-oauth_link_callback :
      (provider code state : String)
      → Ends P before
          (IsSettled P before)
          (IsSettled P before)
          (oauth_link_callback {P = P} settings provider code state)
  unfolding oauth_link_callback
  Ends-oauth_link_callback provider code state =
      search
        (ends_rules, Ends-exchange_code_for_identity settings, Ends-link_oauth_account_to_user L)
        depth 12

  Ends-handle :
      (request : Request) (call : Call)
      → Ends P before
          (IsSettled P before)
          (IsSettled P before)
          (handle {P = P} settings request call)
  unfolding handle
  Ends-handle request (post_register payload) = search (ends_rules, Ends-auth_limit, Ends-register)
  Ends-handle request (post_login payload) = search (ends_rules, Ends-auth_limit, Ends-login)
  Ends-handle request (post_refresh token) =
      search (ends_rules, Ends-auth_limit, Ends-refresh_access_pair L)
  Ends-handle request (post_logout token) =
      search (ends_rules, Ends-auth_limit, Ends-logout_refresh_token L)
  Ends-handle request (get_me credentials) = search (ends_rules, Ends-me)
  Ends-handle request (get_oauth_login provider) =
      search (ends_rules, Ends-auth_limit, Ends-oauth_login)
  Ends-handle request (get_oauth_link provider credentials) =
      search (ends_rules, Ends-auth_limit, Ends-oauth_link)
  Ends-handle request (get_oauth_callback provider code state) =
      search (ends_rules, Ends-auth_limit, Ends-oauth_callback)
  Ends-handle request (get_oauth_link_callback provider code state) =
      search (ends_rules, Ends-auth_limit, Ends-oauth_link_callback)

module _ {P : Platform} (L : IsDocumented P) (settings : Settings) where
  pub serve-IsSettled :
      {before : Rows} (request : Request) (call : Call) (w : World P)
      → IsSettled P before w.session
      → IsSettled P before (serve settings request call w).1.session
  unfolding in_session
  serve-IsSettled request call w h = rollback-IsSettled L _ (
      IsSettled-IsPending
        (Ends-settles (handle settings request call) w (Ends-handle L settings request call) h))

  pub serve_all-IsSettled :
      {before : Rows} (calls : List (Request × Call)) (w : World P)
      → IsSettled P before w.session
      → IsSettled P before (serve_all settings calls w).session
  unfolding serve_all
  serve_all-IsSettled [] w h = h
  serve_all-IsSettled ((request, call) ∷ calls) w h =
      serve_all-IsSettled calls _ (serve-IsSettled request call w h)

  -- From tables that meet their constraints, with everything committed and nothing for the next flush
  -- to refuse, any sequence of requests to the routes leads to such tables.
  pub serve_all-IsConsistent :
      (calls : List (Request × Call)) (w : World P)
      → IsConsistent (P.rows w.session)
      → P.saved w.session ≡ P.rows w.session
      → P.rejects w.session ≡ false
      → let s = (serve_all settings calls w).session in
        IsConsistent (P.rows s) × (P.saved s ≡ P.rows s) × (P.rejects s ≡ false)
  serve_all-IsConsistent calls w consistent committed accepted =
      let h =
        serve_all-IsSettled calls w
          (record { reached = here; committed = committed; accepted = accepted }) in
      (Changes-IsConsistent h.reached consistent, h.committed, h.accepted)
