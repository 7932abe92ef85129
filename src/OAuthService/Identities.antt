-- ===== src/OAuthService/Identities.antt =====
-- Who signs in: the provider is asked with the code that it sent, and its answers are read.
use Prim.Native.String.{◌++◌}
use smart_auth_with_kubernat.Prelude.{
  ℕ, String, Bool, not, [], ◌∷◌, ◌&&◌, ◌==◌, string_eq, leb, ltb, if◌then◌else◌,
}
use smart_auth_with_kubernat.Config.{Settings}
use smart_auth_with_kubernat.Exec.{
  Exec, exception, pure, lift, or_raise, raise_if, http_call, ◌>>=◌, ◌>>◌,
}
use smart_auth_with_kubernat.OAuthService.Providers.{
  OAuthIdentity, OAuthProviderConfig, OAuthState, callback_url, provider_config,
}
use smart_auth_with_kubernat.OAuthService.States.{consume_oauth_state}
use smart_auth_with_kubernat.Platform.{Platform}
use smart_auth_with_kubernat.OAuthService.Profiles.{item, google_identity, github_identity}
use smart_auth_with_kubernat.Platform.Http.{Json, HttpCall, post, get}

-- `response.raise_for_status()` passes the codes of success.
abbrev is_success : ℕ → Bool
is_success n = leb 200 n && ltb n 300

abbrev bearer : Platform → Json → String × String
bearer P access_token = ("Authorization", "Bearer " ++ P.str access_token)

module _ {P : Platform} where
  -- a request, `raise_for_status()` and `json()`
  unfoldable pub json_reply : HttpCall → Exec P Json
  json_reply call = do
    response ← http_call call
    raise_if (not (is_success response.status_code)) (exception "HTTPStatusError")
    or_raise response.body (exception "JSONDecodeError")

  unfoldable pub fetch_google_identity :
      OAuthProviderConfig → String → String → Exec P OAuthIdentity
  fetch_google_identity config code redirect_uri = do
    token_response ← json_reply (
        post config.token_url [] (
          ("client_id", config.client_id)
          ∷ ("client_secret", config.client_secret)
          ∷ ("code", code)
          ∷ ("grant_type", "authorization_code")
          ∷ ("redirect_uri", redirect_uri)
          ∷ []))
    access_token ← lift (item "access_token" token_response)
    profile ← json_reply (get config.userinfo_url (bearer P access_token ∷ []))
    lift (google_identity profile)

  unfoldable pub fetch_github_identity :
      OAuthProviderConfig → String → String → Exec P OAuthIdentity
  fetch_github_identity config code redirect_uri = do
    token_response ← json_reply (
        post config.token_url (("Accept", "application/json") ∷ []) (
          ("client_id", config.client_id)
          ∷ ("client_secret", config.client_secret)
          ∷ ("code", code)
          ∷ ("redirect_uri", redirect_uri)
          ∷ []))
    access_token ← lift (item "access_token" token_response)
    let headers = bearer P access_token ∷ ("Accept", "application/vnd.github+json") ∷ []
    profile ← json_reply (get config.userinfo_url headers)
    emails ← json_reply (get "https://api.github.com/user/emails" headers)
    lift (github_identity P.str profile emails)

module _ {P : Platform} (settings : Settings) where
  -- the code is exchanged at the provider that the state was written for
  abbrev pub fetch_identity : String → OAuthProviderConfig → String → String → Exec P OAuthIdentity
  fetch_identity provider config code redirect_uri =
      if provider == "google"
      then fetch_google_identity config code redirect_uri
      else fetch_github_identity config code redirect_uri

  unfoldable pub exchange_code_for_identity :
      String → String → String → String → Exec P (OAuthIdentity × OAuthState)
  exchange_code_for_identity provider code state expected_flow = do
    config ← lift (provider_config settings provider)
    state_payload ← consume_oauth_state provider state expected_flow
    identity ← fetch_identity provider config code (callback_url settings provider expected_flow)
    pure (identity, state_payload)
