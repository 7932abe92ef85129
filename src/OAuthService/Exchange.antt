-- ===== src/OAuthService/Exchange.antt =====
-- The exchange of a code for an identity: what it leaves, and that a state is good for one.
use smart_auth_with_kubernat.Prelude.{String, ◌≡◌, ◌≢◌, ap, ◌∙◌, string_eq}
use smart_auth_with_kubernat.Config.{Settings}
use smart_auth_with_kubernat.Exec.{Failure, ok, err}
use smart_auth_with_kubernat.Exec.Ends.{Ends, ends_rules, Ends-if}
use smart_auth_with_kubernat.Exec.Inversion.{lift-bind, bind-eq-err}
use smart_auth_with_kubernat.Exec.Stores.{KeepsStore, KeepsStore-if, store-bind, store_rules}
use smart_auth_with_kubernat.OAuthService.Handshake.{consume_once}
use smart_auth_with_kubernat.OAuthService.Identities.{
  json_reply, fetch_google_identity, fetch_github_identity, fetch_identity,
  exchange_code_for_identity,
}
use smart_auth_with_kubernat.OAuthService.Providers.{
  OAuthProviderConfig, provider_config, state_key,
}
use smart_auth_with_kubernat.OAuthService.States.{consume_oauth_state, invalid_state}
use smart_auth_with_kubernat.Platform.{Platform, IsDocumented, World}
use smart_auth_with_kubernat.Platform.Database.{Rows}
use smart_auth_with_kubernat.Platform.Http.{HttpCall}
use smart_auth_with_kubernat.Platform.Libraries.{reply, refused}
use smart_auth_with_kubernat.Settled.{IsSettled}

module _ {P : Platform} {before : Rows} where
  Ends-json_reply :
      (call : HttpCall)
      → Ends P before (IsSettled P before) (IsSettled P before) (json_reply {P = P} call)
  unfolding json_reply
  Ends-json_reply call = search ends_rules depth 9

  Ends-fetch_google_identity :
      (config : OAuthProviderConfig) (code uri : String)
      → Ends P before
          (IsSettled P before)
          (IsSettled P before)
          (fetch_google_identity {P = P} config code uri)
  unfolding fetch_google_identity
  Ends-fetch_google_identity config code uri = search (ends_rules, Ends-json_reply) depth 9

  Ends-fetch_github_identity :
      (config : OAuthProviderConfig) (code uri : String)
      → Ends P before
          (IsSettled P before)
          (IsSettled P before)
          (fetch_github_identity {P = P} config code uri)
  unfolding fetch_github_identity
  Ends-fetch_github_identity config code uri = search (ends_rules, Ends-json_reply) depth 12

  Ends-consume_oauth_state :
      (provider state flow : String)
      → Ends P before
          (IsSettled P before)
          (IsSettled P before)
          (consume_oauth_state {P = P} provider state flow)
  unfolding consume_oauth_state
  Ends-consume_oauth_state provider state flow = search ends_rules depth 14

  Ends-fetch_identity :
      (settings : Settings) (provider : String) (config : OAuthProviderConfig) (code uri : String)
      → Ends P before
          (IsSettled P before)
          (IsSettled P before)
          (fetch_identity {P = P} settings provider config code uri)
  Ends-fetch_identity settings provider config code uri =
      Ends-if _ _ _ (Ends-fetch_google_identity config code uri)
        (Ends-fetch_github_identity config code uri)

  pub Ends-exchange_code_for_identity :
      (settings : Settings) (provider code state flow : String)
      → Ends P before
          (IsSettled P before)
          (IsSettled P before)
          (exchange_code_for_identity {P = P} settings provider code state flow)
  unfolding exchange_code_for_identity
  Ends-exchange_code_for_identity settings provider code state flow =
      search (ends_rules, Ends-consume_oauth_state, Ends-fetch_identity settings) depth 9

module _ {P : Platform} where
  KeepsStore-json_reply : (call : HttpCall) → KeepsStore P (json_reply {P = P} call)
  unfolding json_reply
  KeepsStore-json_reply call = search store_rules depth 9

  KeepsStore-fetch_google_identity :
      (config : OAuthProviderConfig) (code uri : String)
      → KeepsStore P (fetch_google_identity {P = P} config code uri)
  unfolding fetch_google_identity
  KeepsStore-fetch_google_identity config code uri =
      search (store_rules, KeepsStore-json_reply) depth 9

  KeepsStore-fetch_github_identity :
      (config : OAuthProviderConfig) (code uri : String)
      → KeepsStore P (fetch_github_identity {P = P} config code uri)
  unfolding fetch_github_identity
  KeepsStore-fetch_github_identity config code uri =
      search (store_rules, KeepsStore-json_reply) depth 12

  KeepsStore-fetch_identity :
      (settings : Settings) (provider : String) (config : OAuthProviderConfig) (code uri : String)
      → KeepsStore P (fetch_identity {P = P} settings provider config code uri)
  KeepsStore-fetch_identity settings provider config code uri =
      KeepsStore-if _ _ _ (KeepsStore-fetch_google_identity config code uri)
        (KeepsStore-fetch_github_identity config code uri)

module _ {P : Platform} (settings : Settings) (provider code state flow : String) where
  -- the exchange leaves of Redis what the taking of the state leaves
  store-exchange :
      (config : OAuthProviderConfig) (w : World P)
      → provider_config settings provider ≡ ok config
      → (exchange_code_for_identity {P = P} settings provider code state flow w).1.store
        ≡ (consume_oauth_state {P = P} provider state flow w).1.store
  unfolding exchange_code_for_identity
  store-exchange config w found =
      rw (lift-bind (provider_config settings provider) config _ w found) (
        store-bind (consume_oauth_state provider state flow) _ w
          (λ s. search (store_rules, KeepsStore-fetch_identity settings)))

  exchange-eq-err :
      (config : OAuthProviderConfig) (e : Failure) (w : World P)
      → provider_config settings provider ≡ ok config
      → (consume_oauth_state {P = P} provider state flow w).0 ≡ err e
      → (exchange_code_for_identity {P = P} settings provider code state flow w).0 ≡ err e
  unfolding exchange_code_for_identity
  exchange-eq-err config e w found refused_state =
      rw (lift-bind (provider_config settings provider) config _ w found)
        (bind-eq-err (consume_oauth_state provider state flow) _ w refused_state)

module _ {P : Platform} (L : IsDocumented P) (settings : Settings) where
  -- Once a code was exchanged for a state, or the exchange failed after the state was taken, every
  -- other exchange for that state is refused, whatever its code and its flow, while nobody writes the
  -- state's key again.
  pub exchange_once :
      (provider code state flow later_code later_flow : String) (config : OAuthProviderConfig)
      (w v : World P)
      → provider_config settings provider ≡ ok config
      → P.answer w.readings ≢ refused
      → P.answer v.readings ≡ reply
      → let w' = (exchange_code_for_identity {P = P} settings provider code state flow w).1 in
        P.entries v.store (state_key provider state) ≡ P.entries w'.store (state_key provider state)
        → (exchange_code_for_identity {P = P} settings provider later_code state later_flow v).0
          ≡ err invalid_state
  exchange_once provider code state flow later_code later_flow config w v found taken up same =
      let stored = store-exchange settings provider code state flow config w found in
      exchange-eq-err settings provider later_code state later_flow config invalid_state v found (
        consume_once L provider state flow later_flow w v taken up
          (same ∙ ap (λ s. P.entries s (state_key provider state)) stored))
