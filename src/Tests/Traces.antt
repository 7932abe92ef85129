-- ===== src/Tests/Traces.antt =====
-- What a sequence of requests leaves, on the platform in memory.
use smart_auth_with_kubernat.Prelude.{◌≡◌, refl, some, none, List, [], ◌∷◌}
use smart_auth_with_kubernat.Prelude.Texts.{lower}
use smart_auth_with_kubernat.AuthService.{register_user, authenticate_user}
use smart_auth_with_kubernat.Exec.{ok, commit, draw, ◌>>=◌}
use smart_auth_with_kubernat.Models.{User, user_fits}
use smart_auth_with_kubernat.Platform.{World}
use smart_auth_with_kubernat.RateLimiter.{Request}
use smart_auth_with_kubernat.Repositories.{add_user}
use smart_auth_with_kubernat.Routes.{
  Call, post_register, post_login, post_logout, get_me, serve_all,
}
use smart_auth_with_kubernat.Routes.Logins.{logins-persist}
use smart_auth_with_kubernat.Security.{hash_password, verify_password}
use smart_auth_with_kubernat.Tests.Auth.{ann, ann_row, with_ann}
use smart_auth_with_kubernat.Tests.Memory.{memory, memory-IsDocumented, sample_settings}

abbrev guest : Request
guest = record { client_host = some "203.0.113.9"; forwarded_for = none }

abbrev trace : List (Request × Call)
trace =
    (guest, post_register (record ann { full_name = "Another Ann"; password = "OtherPass123" }))
    ∷ (guest, post_login (record { email = "ann@example.com"; password = "OtherPass123" }))
    ∷ (guest, post_logout "no token")
    ∷ (guest, get_me none)
    ∷ []

abbrev traced : World memory
traced = serve_all {P = memory} sample_settings trace with_ann

logins-persist_example :
    (again : User) × (again.id ≡ ann_row.id)
    × (authenticate_user {P = memory} "ANN@example.com" "StrongPass123" traced ≡ (ok again, traced))
unfolding register_user hash_password add_user draw commit lower user_fits authenticate_user
    verify_password ◌>>=◌
logins-persist_example =
    logins-persist memory-IsDocumented sample_settings trace "ANN@example.com" "StrongPass123"
      with_ann with_ann ann_row refl refl refl
