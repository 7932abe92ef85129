-- ===== src/Tests/Logout.antt =====
-- A logout on the platform in memory.
use smart_auth_with_kubernat.Prelude.{ℕ, String, ◌≢◌, refl, some, List, [], ◌∷◌}
use smart_auth_with_kubernat.Prelude.Texts.{lower}
use smart_auth_with_kubernat.AuthService.{
  register_user, issue_token_pair, refresh_access_pair, logout_refresh_token,
}
use smart_auth_with_kubernat.AuthService.Logout.{logout-refresh}
use smart_auth_with_kubernat.Constraints.{here}
use smart_auth_with_kubernat.Exec.{ok, now, draw, commit, ◌>>=◌}
use smart_auth_with_kubernat.Models.{RefreshToken, user_fits, token_fits}
use smart_auth_with_kubernat.Platform.{World}
use smart_auth_with_kubernat.Platform.Libraries.{Claims}
use smart_auth_with_kubernat.Repositories.{add_user, add_token}
use smart_auth_with_kubernat.Security.{
  hash_password, create_access_token, create_refresh_token, decode_token,
}
use smart_auth_with_kubernat.Tests.Auth.{ann_row, issued, body}
use smart_auth_with_kubernat.Tests.Memory.{memory, memory-IsDocumented, sample_settings}
use smart_auth_with_kubernat.Tests.Tokens.{
  encode, decode, parse, put_number, put_unary, take_unary, take_text, put_text, take_number,
}

abbrev first : List RefreshToken → RefreshToken
first [] = record {
  id = 0;
  user_id = 0;
  jti = "";
  expires_at = 0;
  revoked_at = some 0;
  created_at = 0;
}
first (t ∷ l) = t

abbrev ann_record : RefreshToken
ann_record = first issued.1.session.current.tokens

abbrev ann_claims : Claims
ann_claims = record {
  sub = some (memory.uuid_text ann_row.id);
  type = some "refresh";
  jti = some ann_record.jti;
}

abbrev token : String
token = (body issued.0).refresh_token

abbrev at : ℕ
at = memory.clock issued.1.readings

abbrev logged_out : World memory
logged_out = (logout_refresh_token sample_settings token issued.1).1

logout-refresh_example :
    refresh_access_pair sample_settings token logged_out ≢ (ok (body issued.0), logged_out)
unfolding register_user hash_password add_user draw commit lower user_fits token_fits ◌>>=◌
    issue_token_pair create_access_token create_refresh_token add_token now logout_refresh_token
    decode_token put_number take_number put_unary take_unary put_text take_text encode decode parse
logout-refresh_example =
    logout-refresh memory-IsDocumented sample_settings token ann_record.jti at ann_claims ann_record
      issued.1 logged_out logged_out logged_out (body issued.0) refl refl refl refl here
