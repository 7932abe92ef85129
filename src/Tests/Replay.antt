-- ===== src/Tests/Replay.antt =====
-- A refresh token that is sent twice, on the platform in memory.
use smart_auth_with_kubernat.Prelude.{String, ◌≢◌, refl, some, none, List, [], ◌∷◌}
use smart_auth_with_kubernat.Prelude.Texts.{lower}
use smart_auth_with_kubernat.AuthService.{
  register_user, issue_token_pair, refresh_access_pair, check_refresh_token, check_refresh_record,
  rotate_refresh_token,
}
use smart_auth_with_kubernat.Deps.{in_session}
use smart_auth_with_kubernat.Exec.{Result, ok, err, now, draw, commit, redis_command, ◌>>=◌}
use smart_auth_with_kubernat.Models.{user_fits, token_fits}
use smart_auth_with_kubernat.Platform.{World}
use smart_auth_with_kubernat.RateLimiter.{Request, rate_limit, get_client_ip}
use smart_auth_with_kubernat.Repositories.{add_user, add_token}
use smart_auth_with_kubernat.Routes.{
  Call, post_refresh, get_me, Response, no_content, auth_limit, handle, serve, serve_all,
}
use smart_auth_with_kubernat.Routes.Replay.{refresh_served_once}
use smart_auth_with_kubernat.Security.{
  hash_password, create_access_token, create_refresh_token, decode_token,
}
use smart_auth_with_kubernat.Tests.Auth.{issued, body}
use smart_auth_with_kubernat.Tests.Memory.{memory, memory-IsDocumented, sample_settings}
use smart_auth_with_kubernat.Tests.Tokens.{
  encode, decode, parse, put_number, put_unary, take_unary, take_text, put_text, take_number,
}

abbrev visitor : Request
visitor = record { client_host = some "203.0.113.7"; forwarded_for = none }

abbrev thief : Request
thief = record { client_host = some "203.0.113.8"; forwarded_for = none }

abbrev token : String
token = (body issued.0).refresh_token

abbrev answered : Result Response × World memory
answered = serve {P = memory} sample_settings visitor (post_refresh token) issued.1

abbrev response_of : Result Response → Response
response_of (ok r) = r
response_of (err e) = no_content

abbrev between : List (Request × Call)
between = (thief, get_me none) ∷ (visitor, post_refresh "no token") ∷ []

refresh_served_once_example :
    serve sample_settings thief (post_refresh token) (serve_all sample_settings between answered.1)
    ≢ (ok (response_of answered.0), answered.1)
unfolding register_user hash_password add_user draw commit lower user_fits token_fits ◌>>=◌
    issue_token_pair create_access_token create_refresh_token add_token now refresh_access_pair
    check_refresh_token check_refresh_record rotate_refresh_token decode_token put_number
    take_number put_unary take_unary put_text take_text encode decode parse in_session handle
    auth_limit rate_limit get_client_ip redis_command
refresh_served_once_example =
    refresh_served_once memory-IsDocumented sample_settings visitor thief token between issued.1
      answered.1 answered.1 (response_of answered.0) (response_of answered.0) refl refl refl
