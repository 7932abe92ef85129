-- ===== src/OAuthService/States.antt =====
-- The `state` parameter: written to Redis when a flow starts, taken out once when it returns.
use Prim.Native.String.{◌++◌}
use smart_auth_with_kubernat.Prelude.{
  String, Option, none, some, List, [], ◌∷◌, ◌++◌ as ◌+++◌, ◌&&◌, ◌==◌, string_eq, not, is_set,
  truthy, if◌then◌else◌,
}
use smart_auth_with_kubernat.Config.{Settings}
use smart_auth_with_kubernat.Exec.{
  Exec, Failure, http, pure, lift, or_raise, raise_if, draw, redis_command, ◌>>=◌, ◌>>◌,
}
use smart_auth_with_kubernat.OAuthService.Providers.{
  OAuthState, OAuthStartResponse, callback_url, provider_config, state_key,
}
use smart_auth_with_kubernat.Platform.{Platform}
use smart_auth_with_kubernat.Platform.Libraries.{JsonObject}
use smart_auth_with_kubernat.Security.{is_text}

abbrev pub no_user_context : Failure
no_user_context = http 400 "OAuth link flow requires a user context"

abbrev pub invalid_state : Failure
invalid_state = http 400 "Invalid or expired OAuth state"

abbrev pub malformed_state : Failure
malformed_state = http 400 "Malformed OAuth state payload"

abbrev pub unexpected_flow : Failure
unexpected_flow = http 400 "Unexpected OAuth flow state"

abbrev pub no_target : Failure
no_target = http 400 "OAuth link state is missing the target user"

-- `payload.get(k)`; a value of null is `None` too
abbrev pub field : String → JsonObject → Option String
field k [] = none
field k ((j, v) ∷ o) = if j == k then v else field k o

-- `{"flow": flow, "user_id": user_id}`
abbrev pub state_payload : String → Option String → JsonObject
state_payload flow user_id = ("flow", some flow) ∷ ("user_id", user_id) ∷ []

-- what the provider asks for beside the common parameters
abbrev pub extra_params : String → List (String × String)
extra_params provider =
    if provider == "google"
    then ("prompt", "select_account") ∷ ("access_type", "offline") ∷ []
    else []

module _ {P : Platform} (settings : Settings) where
  unfoldable pub build_authorization_url :
      String → String → Option String → Exec P OAuthStartResponse
  build_authorization_url provider flow user_id = do
    config ← lift (provider_config settings provider)
    raise_if (flow == "link" && not (is_set user_id)) no_user_context
    n ← draw
    let state = P.token_urlsafe n
    redis_command (λ t s. tt)
        (λ t s. P.setex t (state_key provider state) 600 (P.dumps (state_payload flow user_id)) s)
    let params =
        (("client_id", config.client_id)
          ∷ ("redirect_uri", callback_url settings provider flow)
          ∷ ("response_type", "code")
          ∷ ("scope", config.scope)
          ∷ ("state", state)
          ∷ [])
        +++ extra_params provider
    pure (record {
      provider = provider;
      authorization_url = config.authorize_url ++ ("?" ++ P.urlencode params);
      state = state;
    })

  -- `get_authorization_url(provider, redis)`
  unfoldable pub get_authorization_url : String → Exec P OAuthStartResponse
  get_authorization_url provider = build_authorization_url provider "login" none

module _ {P : Platform} where
  -- GET and DEL in one transaction
  abbrev pub take_key : String → Exec P (Option String)
  take_key key = redis_command (λ t s. P.get t key s) (λ t s. P.delete key s)

  unfoldable pub consume_oauth_state : String → String → String → Exec P OAuthState
  consume_oauth_state provider state expected_flow = do
    found ← take_key (state_key provider state)
    raw_state ← or_raise (truthy found) invalid_state
    payload ← or_raise (P.loads raw_state) malformed_state
    raise_if (not (is_text (field "flow" payload) expected_flow)) unexpected_flow
    let user_id = field "user_id" payload
    raise_if (expected_flow == "link" && not (is_set user_id)) no_target
    pure (record { flow = expected_flow; user_id = user_id })
