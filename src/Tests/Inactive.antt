-- ===== src/Tests/Inactive.antt =====
-- A sign-in of a user that is not active, on the platform in memory.
use smart_auth_with_kubernat.Prelude.{◌≡◌, refl, false, [], ◌∷◌}
use smart_auth_with_kubernat.Exec.{ok}
use smart_auth_with_kubernat.Models.{User, OAuthAccount, assignment_fits}
use smart_auth_with_kubernat.OAuthService.{get_or_create_oauth_user}
use smart_auth_with_kubernat.OAuthService.Inactive.{inactive_signs_in}
use smart_auth_with_kubernat.Platform.{World}
use smart_auth_with_kubernat.Tests.Memory.{memory, memory-IsDocumented, fresh_session, start}
use smart_auth_with_kubernat.Tests.Ordered.{bea}
use smart_auth_with_kubernat.Tests.Owners.{ann_at_google}

abbrev dismissed : User
dismissed = record bea { is_active = false }

abbrev at_google : OAuthAccount
at_google = record {
  id = 9;
  user_id = 1;
  provider = "google";
  provider_user_id = "g-1";
  created_at = 11;
}

abbrev without_bea : World memory
without_bea = record start {
  session = record fresh_session {
    current = record { users = dismissed ∷ []; accounts = at_google ∷ []; tokens = [] };
  };
}

inactive_signs_in_example :
    (signed_in : User) × (w' : World memory) × (get_or_create_oauth_user {P = memory} "google"
        ann_at_google without_bea
      ≡ (ok signed_in, w'))
    × (signed_in.id ≡ 1)
    × (signed_in.is_active ≡ false)
unfolding assignment_fits
inactive_signs_in_example =
    inactive_signs_in memory-IsDocumented "google" ann_at_google at_google dismissed without_bea
      refl refl refl refl refl refl
