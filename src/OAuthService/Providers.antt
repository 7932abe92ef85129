-- ===== src/OAuthService/Providers.antt =====
-- The providers' settings and the URLs and keys that are made from them.
use Prim.Native.String.{◌++◌}
use smart_auth_with_kubernat.Prelude.{String, Bool, Option, ◌||◌, ◌==◌, string_eq, if◌then◌else◌}
use smart_auth_with_kubernat.Config.{Settings}
use smart_auth_with_kubernat.Exec.{Failure, Result, ok, err, http}

pub record OAuthIdentity : Type 0 where
  pub provider_user_id : String
  pub email : String
  pub full_name : String
  pub avatar_url : Option String
  pub email_verified : Bool

pub record OAuthProviderConfig : Type 0 where
  pub client_id : String
  pub client_secret : String
  pub authorize_url : String
  pub token_url : String
  pub userinfo_url : String
  pub scope : String

pub record OAuthState : Type 0 where
  pub flow : String
  pub user_id : Option String

pub record OAuthStartResponse : Type 0 where
  pub provider : String
  pub authorization_url : String
  pub state : String

abbrev pub unsupported : Failure
unsupported = http 404 "Unsupported OAuth provider"

-- `provider.title()`, of the two providers that there are
abbrev pub title : String → String
title provider = if provider == "google" then "Google" else "Github"

abbrev pub not_configured : String → Failure
not_configured provider = http 400 (title provider ++ " OAuth credentials are not configured")

module _ (settings : Settings) where
  unfoldable pub callback_url : String → String → String
  callback_url provider flow =
      let base_path =
        settings.public_backend_url ++ (settings.api_v1_prefix ++ ("/auth/oauth/" ++ provider)) in
      if flow == "link" then base_path ++ "/link/callback" else base_path ++ "/callback"

  abbrev google_config : OAuthProviderConfig
  google_config = record {
    client_id = settings.google_client_id;
    client_secret = settings.google_client_secret;
    authorize_url = "https://accounts.google.com/o/oauth2/v2/auth";
    token_url = "https://oauth2.googleapis.com/token";
    userinfo_url = "https://openidconnect.googleapis.com/v1/userinfo";
    scope = "openid email profile";
  }

  abbrev github_config : OAuthProviderConfig
  github_config = record {
    client_id = settings.github_client_id;
    client_secret = settings.github_client_secret;
    authorize_url = "https://github.com/login/oauth/authorize";
    token_url = "https://github.com/login/oauth/access_token";
    userinfo_url = "https://api.github.com/user";
    scope = "read:user user:email";
  }

  configured : String → OAuthProviderConfig → Result OAuthProviderConfig
  configured provider config =
      if config.client_id == "" || config.client_secret == ""
      then err (not_configured provider)
      else ok config

  unfoldable pub provider_config : String → Result OAuthProviderConfig
  unfolding configured
  provider_config provider =
      if provider == "google"
      then configured provider google_config
      else if provider == "github"
      then configured provider github_config
      else err unsupported

unfoldable pub state_key : String → String → String
state_key provider state = "oauth:state:" ++ (provider ++ (":" ++ state))
