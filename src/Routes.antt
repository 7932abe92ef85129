-- ===== src/Routes.antt =====
-- app/api/v1/auth.py: the routes, each the composition of the limiter, the session and the services.
pub mod Invariant
pub mod Replay
pub mod Logins
use smart_auth_with_kubernat.Prelude.{
  String, Bool, true, Option, none, some, List, [], ◌∷◌, not, ◌||◌, ◌==◌, string_eq,
}
use smart_auth_with_kubernat.AuthService.{
  register_user, authenticate_user, issue_token_pair, refresh_access_pair, logout_refresh_token,
}
use smart_auth_with_kubernat.Config.{Settings}
use smart_auth_with_kubernat.Deps.{in_session, get_current_user}
use smart_auth_with_kubernat.Exec.{
  Exec, Failure, http, exception, or_raise, pure, raise_if, ◌>>=◌, ◌>>◌,
}
use smart_auth_with_kubernat.Models.{
  User, RegisterRequest, LoginRequest, TokenResponse, UserRead, OAuthLinkResponse, model_validate,
}
use smart_auth_with_kubernat.OAuthService.{
  OAuthStartResponse, OAuthIdentity, OAuthState, build_authorization_url,
  exchange_code_for_identity, get_or_create_oauth_user, link_oauth_account_to_user,
}
use smart_auth_with_kubernat.Platform.{Platform, World}
use smart_auth_with_kubernat.RateLimiter.{Request, rate_limit}

-- what a provider must match in a path
abbrev pub is_provider : String → Bool
is_provider provider = provider == "google" || provider == "github"

abbrev pub bad_provider : Failure
bad_provider = http 422 "String should match pattern '^(google|github)$'"

-- a request whose body has been read: the access token is the one of its header
pub data Call : Type 0 where
  post_register : RegisterRequest → Call
  post_login : LoginRequest → Call
  post_refresh : String → Call
  post_logout : String → Call
  get_me : Option String → Call
  get_oauth_login : String → Call
  get_oauth_link : String → Option String → Call
  -- the provider, the code and the state
  get_oauth_callback : String → String → String → Call
  get_oauth_link_callback : String → String → String → Call

pub data Response : Type 0 where
  tokens : TokenResponse → Response
  profile : UserRead → Response
  started : OAuthStartResponse → Response
  linked : OAuthLinkResponse → Response
  no_content : Response

module _ {P : Platform} where
  -- the answer to a callback that has linked an account
  abbrev pub link_response : String → User → Exec P OAuthLinkResponse
  link_response provider user = do
    user_read ← or_raise (model_validate P.email_str user) (exception "ValidationError")
    pure (record { provider = provider; linked = true; user = user_read })

module _ {P : Platform} (settings : Settings) where
  unfoldable pub auth_limit : Request → Exec P Unit
  auth_limit =
      rate_limit settings "auth" settings.rate_limit_auth_requests
        settings.rate_limit_auth_window_seconds

  unfoldable pub register : RegisterRequest → Exec P TokenResponse
  register payload = do user ← register_user payload; issue_token_pair settings user

  unfoldable pub login : LoginRequest → Exec P TokenResponse
  login payload = do
    user ← authenticate_user payload.email payload.password
    issue_token_pair settings user

  unfoldable pub me : Option String → Exec P UserRead
  me credentials = do
    current_user ← get_current_user settings credentials
    or_raise (model_validate P.email_str current_user) (exception "ValidationError")

  unfoldable pub oauth_login : String → Exec P OAuthStartResponse
  oauth_login provider = do
    raise_if (not (is_provider provider)) bad_provider
    build_authorization_url settings provider "login" none

  unfoldable pub oauth_link : String → Option String → Exec P OAuthStartResponse
  oauth_link provider credentials = do
    current_user ← get_current_user settings credentials
    raise_if (not (is_provider provider)) bad_provider
    build_authorization_url settings provider "link" (some (P.uuid_text current_user.id))

  -- the identity behind a code, once the path's provider is one of the two
  abbrev pub exchange : String → String → String → String → Exec P (OAuthIdentity × OAuthState)
  exchange provider code state flow = do
    raise_if (not (is_provider provider)) bad_provider
    exchange_code_for_identity settings provider code state flow

  unfoldable pub oauth_callback : String → String → String → Exec P TokenResponse
  oauth_callback provider code state = do
    (identity, _) ← exchange provider code state "login"
    user ← get_or_create_oauth_user provider identity
    issue_token_pair settings user

  unfoldable pub oauth_link_callback : String → String → String → Exec P OAuthLinkResponse
  oauth_link_callback provider code state = do
    (identity, state_payload) ← exchange provider code state "link"
    user ← link_oauth_account_to_user provider identity state_payload.user_id
    link_response provider user

  -- the handler of a route, its limit before it
  unfoldable pub handle : Request → Call → Exec P Response
  handle request (post_register payload) = do
    auth_limit request
    r ← register payload
    pure (tokens r)
  handle request (post_login payload) = do auth_limit request; r ← login payload; pure (tokens r)
  handle request (post_refresh refresh_token) = do
    auth_limit request
    r ← refresh_access_pair settings refresh_token
    pure (tokens r)
  handle request (post_logout refresh_token) = do
    auth_limit request
    logout_refresh_token settings refresh_token
    pure no_content
  handle request (get_me credentials) = do r ← me credentials; pure (profile r)
  handle request (get_oauth_login provider) = do
    auth_limit request
    r ← oauth_login provider
    pure (started r)
  handle request (get_oauth_link provider credentials) = do
    auth_limit request
    r ← oauth_link provider credentials
    pure (started r)
  handle request (get_oauth_callback provider code state) = do
    auth_limit request
    r ← oauth_callback provider code state
    pure (tokens r)
  handle request (get_oauth_link_callback provider code state) = do
    auth_limit request
    r ← oauth_link_callback provider code state
    pure (linked r)

  -- A request has a session of its own.
  abbrev pub serve : Request → Call → Exec P Response
  serve request call = in_session (handle request call)

  -- requests served one after the other, whatever each ends with
  unfoldable pub serve_all : List (Request × Call) → World P → World P
  serve_all [] w = w
  serve_all ((request, call) ∷ calls) w = serve_all calls (serve request call w).1
