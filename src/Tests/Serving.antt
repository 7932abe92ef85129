-- ===== src/Tests/Serving.antt =====
-- The checks of a refresh on the platform in memory.
use smart_auth_with_kubernat.Prelude.{◌≡◌, ◌↔◌, ◌+◌, refl, none, some, List, [], ◌∷◌}
use smart_auth_with_kubernat.Prelude.Texts.{lower}
use smart_auth_with_kubernat.AuthService.{register_user, issue_token_pair, check_refresh_token}
use smart_auth_with_kubernat.AuthService.Check.{IsGood, check_refresh_token_iff}
use smart_auth_with_kubernat.Constraints.{IsConsistent}
use smart_auth_with_kubernat.Deps.{get_current_user}
use smart_auth_with_kubernat.Deps.Current.{IsCurrent, get_current_user_iff}
use smart_auth_with_kubernat.Exec.{ok, now, draw, commit, ◌>>=◌}
use smart_auth_with_kubernat.Models.{RefreshToken, user_fits, token_fits}
use smart_auth_with_kubernat.Repositories.{add_user, add_token}
use smart_auth_with_kubernat.Security.{
  hash_password, create_access_token, create_refresh_token, decode_token,
}
use smart_auth_with_kubernat.Tests.Tokens.{
  encode, decode, parse, put_number, put_unary, take_unary, take_text, put_text, take_number,
}
use smart_auth_with_kubernat.Tests.Auth.{ann_row, issued, body}
use smart_auth_with_kubernat.Tests.Memory.{memory, memory-IsDocumented, sample_settings, no_rows}

pub no_rows-IsConsistent : IsConsistent no_rows
no_rows-IsConsistent = record {
  users_distinct = tt;
  accounts_distinct = tt;
  tokens_distinct = tt;
  accounts_owned = tt;
  tokens_owned = tt;
}

abbrev pub first : List RefreshToken → RefreshToken
first [] = record {
  id = 0;
  user_id = 0;
  jti = "";
  expires_at = 0;
  revoked_at = none;
  created_at = 0;
}
first (t ∷ l) = t

-- the record of the token that was issued
abbrev pub ann_record : RefreshToken
ann_record = first issued.1.session.current.tokens

check_refresh_token_iff_example :
    (check_refresh_token {P = memory} sample_settings (body issued.0).refresh_token issued.1
      ≡ (ok (ann_record, ann_row), record issued.1 { readings = issued.1.readings + 1 + 1 }))
    ↔ IsGood sample_settings (body issued.0).refresh_token issued.1 ann_record ann_row
check_refresh_token_iff_example =
    check_refresh_token_iff sample_settings (body issued.0).refresh_token issued.1 ann_record
      ann_row

get_current_user_iff_example :
    ((get_current_user {P = memory} sample_settings (some (body issued.0).access_token) issued.1
        ≡ (ok ann_row, record issued.1 { readings = issued.1.readings + 1 }))
      ↔ IsCurrent sample_settings (some (body issued.0).access_token) issued.1 ann_row)
    × ((get_current_user {P = memory} sample_settings
          (some (body issued.0).access_token)
          issued.1).1.session
        ≡ issued.1.session)
get_current_user_iff_example =
    get_current_user_iff memory-IsDocumented sample_settings (some (body issued.0).access_token)
      issued.1 ann_row

-- She is let through with her access token.
let_through :
    (get_current_user {P = memory} sample_settings (some (body issued.0).access_token) issued.1).0
    ≡ ok ann_row
unfolding register_user hash_password add_user draw commit lower user_fits token_fits ◌>>=◌
    issue_token_pair create_access_token create_refresh_token add_token now get_current_user
    decode_token encode decode parse put_number put_unary take_unary take_text put_text take_number
let_through = refl
