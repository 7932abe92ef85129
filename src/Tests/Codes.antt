-- ===== src/Tests/Codes.antt =====
-- Codes that are exchanged, on the platform in memory, and what GitHub may answer.
use smart_auth_with_kubernat.Prelude.{String, ◌≡◌, refl, true, false, none, string_eq}
use smart_auth_with_kubernat.Prelude.Texts.{lower, before}
use smart_auth_with_kubernat.Exec.{ok, err, Result}
use smart_auth_with_kubernat.OAuthService.{
  OAuthIdentity, OAuthStartResponse, build_authorization_url, invalid_state, provider_config,
  exchange_code_for_identity, OAuthProviderConfig,
}
use smart_auth_with_kubernat.OAuthService.Exchange.{exchange_once}
use smart_auth_with_kubernat.OAuthService.Profiles.{github_identity, items_of, primary_of}
use smart_auth_with_kubernat.OAuthService.Verified.{IsPrimary, github_identity-verified}
use smart_auth_with_kubernat.Platform.{World}
use smart_auth_with_kubernat.Platform.Http.{
  Json, boolean, number, text, array, object, Items, nil, cons, end, member,
}
use smart_auth_with_kubernat.Tests.Memory.{
  memory, memory-IsDocumented, sample_settings, start, sample_str,
}

abbrev built : Result OAuthStartResponse × World memory
built = build_authorization_url {P = memory} sample_settings "google" "login" none start

abbrev state_of : Result OAuthStartResponse → String
state_of (ok r) = r.state
state_of (err e) = ""

abbrev config_of : Result OAuthProviderConfig → OAuthProviderConfig
config_of (ok c) = c
config_of (err e) = record {
  client_id = "";
  client_secret = "";
  authorize_url = "";
  token_url = "";
  userinfo_url = "";
  scope = "";
}

abbrev google : OAuthProviderConfig
google = config_of (provider_config sample_settings "google")

abbrev exchanged : World memory
exchanged =
    (exchange_code_for_identity {P = memory} sample_settings "google" "code-1" (state_of built.0)
      "login" built.1).1

exchange_once_example :
    (exchange_code_for_identity {P = memory} sample_settings "google" "code-2"
      (state_of built.0)
      "login"
      exchanged).0
    ≡ err invalid_state
unfolding provider_config
exchange_once_example =
    exchange_once memory-IsDocumented sample_settings "google" "code-1" (state_of built.0) "login"
      "code-2" "login" google built.1 exchanged refl (λ e. cc) refl refl

abbrev profile : Json
profile = object (member "id" (number 7) (member "login" (text "ann") end))

abbrev addresses : Items
addresses =
    cons (object (member "email" (text "old@example.com") (member "primary" (boolean false) end))) (
      cons
        (object (
          member "email" (text "Ann@Example.com")
            (member "primary" (boolean true) (member "verified" (boolean true) end))))
        nil)

abbrev ann_at_github : OAuthIdentity
ann_at_github = record {
  provider_user_id = "7";
  email = "ann@example.com";
  full_name = "ann";
  avatar_url = none;
  email_verified = true;
}

github_identity-verified_example :
    (l : Items) × (items_of (array addresses) ≡ ok l) × IsPrimary l "ann@example.com"
unfolding github_identity primary_of lower before
github_identity-verified_example =
    github_identity-verified sample_str profile (array addresses) ann_at_github refl refl
