-- ===== src/Tests/Owners.antt =====
-- Linking and signing in on the platform in memory.
use smart_auth_with_kubernat.Prelude.{◌≡◌, refl, true, some}
use smart_auth_with_kubernat.Exec.{flush, commit, Result, ok, err, draw, ◌>>=◌}
use smart_auth_with_kubernat.OAuthService.{
  OAuthIdentity, get_or_create_oauth_user, link_oauth_account_to_user, sign_in_linked,
  sign_up_identity, link_writes,
}
use smart_auth_with_kubernat.OAuthService.Ownership.{link-sign_in}
use smart_auth_with_kubernat.Constraints.{here}
use smart_auth_with_kubernat.Models.{User, user_fits, account_fits, assignment_fits}
use smart_auth_with_kubernat.Tests.Auth.{ann_row, with_ann}
use smart_auth_with_kubernat.Platform.{World}
use smart_auth_with_kubernat.Tests.Memory.{memory, memory-IsDocumented, start}
use smart_auth_with_kubernat.Prelude.Texts.{lower}
use smart_auth_with_kubernat.AuthService.{register_user}
use smart_auth_with_kubernat.Repositories.{add_user, add_account}
use smart_auth_with_kubernat.Security.{hash_password}
use smart_auth_with_kubernat.Tests.Tokens.{put_number, put_unary, take_number, take_unary}

abbrev pub ann_at_google : OAuthIdentity
ann_at_google = record {
  provider_user_id = "g-1";
  email = "ann@example.com";
  full_name = "Ann Lee";
  avatar_url = some "https://example.com/ann.png";
  email_verified = true;
}

-- the same account under another e-mail
abbrev ann_renamed : OAuthIdentity
ann_renamed = record ann_at_google { email = "lee@example.com"; full_name = "Ann B. Lee" }

abbrev user_of : Result User → User
user_of (ok u) = u
user_of (err e) = ann_row

abbrev linked : Result User × World memory
linked =
    link_oauth_account_to_user {P = memory} "google" ann_at_google
      (some (memory.uuid_text ann_row.id)) with_ann

abbrev signed_in : Result User × World memory
signed_in = get_or_create_oauth_user {P = memory} "google" ann_renamed linked.1

linked_ok :
    link_oauth_account_to_user {P = memory} "google" ann_at_google
      (some (memory.uuid_text ann_row.id))
      with_ann
    ≡ (ok (user_of linked.0), linked.1)
unfolding get_or_create_oauth_user ◌>>=◌ sign_up_identity add_user draw flush user_fits add_account
    commit account_fits sign_in_linked assignment_fits link_oauth_account_to_user link_writes
    register_user hash_password lower put_number put_unary take_number take_unary
linked_ok = refl

signed_in_ok :
    get_or_create_oauth_user {P = memory} "google" ann_renamed linked.1
    ≡ (ok (user_of signed_in.0), signed_in.1)
unfolding get_or_create_oauth_user ◌>>=◌ sign_up_identity add_user draw flush user_fits add_account
    commit account_fits sign_in_linked assignment_fits link_oauth_account_to_user link_writes
    register_user hash_password lower put_number put_unary take_number take_unary
signed_in_ok = refl

link-sign_in_example : (user_of signed_in.0).id ≡ (user_of linked.0).id
link-sign_in_example =
    link-sign_in memory-IsDocumented "google" ann_at_google ann_renamed
      (some (memory.uuid_text ann_row.id)) (user_of linked.0) (user_of signed_in.0) with_ann
      linked.1 linked.1 signed_in.1 refl linked_ok here signed_in_ok

abbrev signed_up : Result User × World memory
signed_up = get_or_create_oauth_user {P = memory} "google" ann_at_google start

abbrev signed_in_again : Result User × World memory
signed_in_again = get_or_create_oauth_user {P = memory} "google" ann_renamed signed_up.1

signed_up_ok :
    get_or_create_oauth_user {P = memory} "google" ann_at_google start
    ≡ (ok (user_of signed_up.0), signed_up.1)
unfolding get_or_create_oauth_user ◌>>=◌ sign_up_identity add_user draw flush user_fits add_account
    commit account_fits sign_in_linked assignment_fits
signed_up_ok = refl

signed_in_again_ok :
    get_or_create_oauth_user {P = memory} "google" ann_renamed signed_up.1
    ≡ (ok (user_of signed_in_again.0), signed_in_again.1)
unfolding get_or_create_oauth_user ◌>>=◌ sign_up_identity add_user draw flush user_fits add_account
    commit account_fits sign_in_linked assignment_fits
signed_in_again_ok = refl
