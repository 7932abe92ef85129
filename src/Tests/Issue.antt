-- ===== src/Tests/Issue.antt =====
-- An issued token that is checked, on the platform in memory.
use smart_auth_with_kubernat.Prelude.{◌≡◌, ◌+◌, refl, arith}
use smart_auth_with_kubernat.Prelude.Texts.{lower}
use smart_auth_with_kubernat.AuthService.{register_user, issue_token_pair, check_refresh_token}
use smart_auth_with_kubernat.AuthService.Issue.{issued_record, issue-check}
use smart_auth_with_kubernat.Exec.{ok, now, draw, commit, ◌>>=◌}
use smart_auth_with_kubernat.Models.{user_fits, token_fits}
use smart_auth_with_kubernat.Repositories.{add_user, add_token}
use smart_auth_with_kubernat.Security.{hash_password, create_access_token, create_refresh_token}
use smart_auth_with_kubernat.Tests.Auth.{ann_row, with_ann, issued, body}
use smart_auth_with_kubernat.Tests.Memory.{memory, memory-IsDocumented, sample_settings}
use smart_auth_with_kubernat.Tests.Tokens.{put_number, put_unary}

issue-check_example : check_refresh_token sample_settings (body issued.0).refresh_token issued.1 ≡ (
  ok (issued_record {P = memory} sample_settings ann_row with_ann, ann_row),
  record issued.1 { readings = issued.1.readings + 1 + 1 },
)
unfolding register_user hash_password add_user draw commit lower user_fits token_fits ◌>>=◌
    issue_token_pair create_access_token create_refresh_token add_token now put_number put_unary
issue-check_example =
    issue-check memory-IsDocumented sample_settings ann_row with_ann issued.1 issued.1
      (body issued.0) refl refl refl refl (omega arith) (omega arith)
