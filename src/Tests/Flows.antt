-- ===== src/Tests/Flows.antt =====
-- The states of OAuth flows on the platform in memory.
use smart_auth_with_kubernat.Prelude.{String, ◌≡◌, refl, some, arith}
use smart_auth_with_kubernat.Exec.{Result, ok, err, draw, redis_command, ◌>>=◌}
use smart_auth_with_kubernat.OAuthService.{
  OAuthStartResponse, provider_config, build_authorization_url, consume_oauth_state, invalid_state,
}
use smart_auth_with_kubernat.OAuthService.Handshake.{consume_once, build-consume}
use smart_auth_with_kubernat.Platform.{World}
use smart_auth_with_kubernat.Tests.Memory.{memory, memory-IsDocumented, sample_settings, start}

abbrev built : Result OAuthStartResponse × World memory
built = build_authorization_url {P = memory} sample_settings "google" "link" (some "7") start

abbrev answer_of : Result OAuthStartResponse → OAuthStartResponse
answer_of (ok r) = r
answer_of (err e) = record { provider = ""; authorization_url = ""; state = "" }

abbrev state : String
state = (answer_of built.0).state

built_ok :
    build_authorization_url {P = memory} sample_settings "google" "link" (some "7") start
    ≡ (ok (answer_of built.0), built.1)
unfolding build_authorization_url ◌>>=◌ provider_config draw redis_command
built_ok = refl

build-consume_example :
    (consume_oauth_state {P = memory} "google" state "link" built.1).0
    ≡ ok (record { flow = "link"; user_id = some "7" })
unfolding build_authorization_url ◌>>=◌ provider_config draw redis_command
build-consume_example =
    build-consume memory-IsDocumented sample_settings "google" "link" (some "7") start built.1
      built.1 (answer_of built.0) built_ok refl (omega arith) refl

abbrev consumed : World memory
consumed = (consume_oauth_state {P = memory} "google" state "login" built.1).1

consume_once_example :
    (consume_oauth_state {P = memory} "google" state "link" consumed).0 ≡ err invalid_state
unfolding build_authorization_url ◌>>=◌ provider_config draw redis_command
consume_once_example =
    consume_once memory-IsDocumented "google" state "login" "link" built.1 consumed (λ e. cc) refl
      refl
