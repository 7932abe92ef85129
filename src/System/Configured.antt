-- ===== src/System/Configured.antt =====
-- The overview and the OAuth service agree on which providers are configured.
use smart_auth_with_kubernat.Prelude.{
  Bool, ◌≡◌, ◌↔◌, true, false, refl, arith, string_eq, ◌||◌, not, ◌&&◌, if◌then◌else◌,
}
use smart_auth_with_kubernat.Config.{Settings}
use smart_auth_with_kubernat.Exec.{Failure, ok, err}
use smart_auth_with_kubernat.OAuthService.{OAuthProviderConfig, provider_config}
use smart_auth_with_kubernat.System.{oauth_overview}

both_set_iff :
    {C : Type 0} (no_id no_secret : Bool) (e : Failure) (c : C)
    → (not no_id && not no_secret ≡ true
        ↔ ((x : C) × ((if no_id || no_secret then err e else ok c) ≡ ok x)))
both_set_iff false false e c = (λ _. (c, refl), λ _. refl)
both_set_iff false true e c = (λ h. ground arith, λ (x, h). ground arith)
both_set_iff true no_secret e c = (λ h. ground arith, λ (x, h). ground arith)

-- The overview calls a provider configured exactly where the OAuth service finds its settings.
pub configured_iff :
    (settings : Settings)
    → ((oauth_overview settings).google_configured ≡ true
        ↔ ((c : OAuthProviderConfig) × (provider_config settings "google" ≡ ok c)))
      × ((oauth_overview settings).github_configured ≡ true
          ↔ ((c : OAuthProviderConfig) × (provider_config settings "github" ≡ ok c)))
unfolding oauth_overview provider_config
configured_iff settings = (both_set_iff _ _ _ _, both_set_iff _ _ _ _)
