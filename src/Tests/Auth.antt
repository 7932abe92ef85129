-- ===== src/Tests/Auth.antt =====
-- Registration, login and rotation on the platform in memory.
use smart_auth_with_kubernat.Prelude.{◌≡◌, ◌≢◌, refl, none, false, ◌∷◌}
use smart_auth_with_kubernat.Prelude.Texts.{lower}
use smart_auth_with_kubernat.AuthService.Unreadable.{issue-unreadable}
use smart_auth_with_kubernat.AuthService.Issue.{issued_record}
use smart_auth_with_kubernat.AuthService.{
  register_user, authenticate_user, issue_token_pair, refresh_access_pair, check_refresh_token,
  check_refresh_record, rotate_refresh_token,
}
use smart_auth_with_kubernat.AuthService.Register.{registered, register-authenticate}
use smart_auth_with_kubernat.AuthService.Rotation.{refresh_once}
use smart_auth_with_kubernat.Constraints.{here}
use smart_auth_with_kubernat.Exec.{Result, ok, err, exception, now, draw, commit, ◌>>=◌}
use smart_auth_with_kubernat.Models.{User, RegisterRequest, TokenResponse, user_fits, token_fits}
use smart_auth_with_kubernat.Platform.{World}
use smart_auth_with_kubernat.Repositories.{add_user, add_token}
use smart_auth_with_kubernat.Security.{
  hash_password, create_access_token, create_refresh_token, decode_token,
}
use smart_auth_with_kubernat.Tests.Memory.{memory, memory-IsDocumented, sample_settings, start}
use smart_auth_with_kubernat.Tests.Tokens.{
  encode, decode, parse, put_number, put_unary, take_unary, take_text, put_text, take_number,
}

abbrev pub ann : RegisterRequest
ann = record { email = "Ann@Example.com"; full_name = "Ann Lee"; password = "StrongPass123" }

abbrev pub ann_row : User
ann_row = registered ann start

abbrev pub with_ann : World memory
with_ann = (register_user ann start).1

register_ann : register_user ann start ≡ (ok ann_row, with_ann)
unfolding register_user hash_password add_user draw commit lower user_fits ◌>>=◌
register_ann = refl

register-authenticate_example :
    authenticate_user "ANN@example.com" "StrongPass123" with_ann ≡ (ok ann_row, with_ann)
unfolding lower
register-authenticate_example =
    register-authenticate memory-IsDocumented ann "ANN@example.com" start with_ann ann_row refl
      register_ann

abbrev blank : TokenResponse
blank = record {
  access_token = "";
  refresh_token = "";
  token_type = "";
  expires_in = 0;
  user = record {
    id = ann_row.id;
    email = "";
    full_name = "";
    avatar_url = none;
    is_active = false;
    email_verified = false;
    created_at = 0;
  };
}

-- the body of a response
abbrev pub body : Result TokenResponse → TokenResponse
body (ok r) = r
body (err e) = blank

abbrev pub issued : Result TokenResponse × World memory
issued = issue_token_pair sample_settings ann_row with_ann

abbrev pub rotated : Result TokenResponse × World memory
rotated = refresh_access_pair sample_settings (body issued.0).refresh_token issued.1

rotate_ann :
    refresh_access_pair sample_settings (body issued.0).refresh_token issued.1
    ≡ (ok (body rotated.0), rotated.1)
unfolding register_user hash_password add_user draw commit lower user_fits token_fits ◌>>=◌
    issue_token_pair create_access_token create_refresh_token add_token now refresh_access_pair
    check_refresh_token check_refresh_record rotate_refresh_token decode_token put_number
    take_number put_unary take_unary put_text take_text encode decode parse
rotate_ann = refl

refresh_once_example :
    refresh_access_pair sample_settings (body issued.0).refresh_token rotated.1
    ≢ (ok (body rotated.0), rotated.1)
refresh_once_example =
    refresh_once memory-IsDocumented sample_settings (body issued.0).refresh_token issued.1
      rotated.1 rotated.1 rotated.1 (body rotated.0) (body rotated.0) rotate_ann here

-- Her e-mail has been lost.
abbrev nameless : User
nameless = record ann_row { email = "" }

issue-unreadable_example :
    let (result, w) = issue_token_pair {P = memory} sample_settings nameless with_ann in
    let rows = with_ann.session.current in
    (result ≡ err (exception "ValidationError"))
    × (w.session.base ≡ record rows {
      tokens = issued_record {P = memory} sample_settings nameless with_ann ∷ rows.tokens;
    })
unfolding register_user hash_password add_user draw commit lower user_fits token_fits ◌>>=◌
    put_number put_unary
issue-unreadable_example =
    issue-unreadable memory-IsDocumented sample_settings nameless with_ann refl refl
