-- ===== src/Tests/Ordered.antt =====
-- Two users in two orders, on the platform in memory.
use mathlib.Core.List.{Memᴰ}
use mathlib.Core.Quot
use smart_auth_with_kubernat.Prelude.{◌≡◌, refl, true, none, List, [], ◌∷◌}
use smart_auth_with_kubernat.Constraints.{IsConsistent, Distinct}
use smart_auth_with_kubernat.Models.{User}
use smart_auth_with_kubernat.Platform.{World}
use smart_auth_with_kubernat.Platform.Database.{Rows, user_clashes}
use smart_auth_with_kubernat.Repositories.{
  get_by_email, get_by_id, get_by_jti, get_with_user, get_by_provider_identity,
}
use smart_auth_with_kubernat.Repositories.Tables.{queries-order}
use smart_auth_with_kubernat.Tests.Memory.{memory, memory-IsDocumented, fresh_session, start}

abbrev pub bea : User
bea = record {
  id = 1;
  email = "bea@example.com";
  full_name = "Bea";
  password_hash = none;
  avatar_url = none;
  is_active = true;
  email_verified = true;
  created_at = 10;
  updated_at = 10;
}

abbrev carl : User
carl = record bea { id = 2; email = "carl@example.com"; full_name = "Carl" }

abbrev rows_with : List User → Rows
rows_with users = record { users = users; accounts = []; tokens = [] }

abbrev world_with : List User → World memory
world_with users = record start { session = record fresh_session { current = rows_with users } }

rows_with-IsConsistent :
    (users : List User) → Distinct user_clashes users → IsConsistent (rows_with users)
rows_with-IsConsistent users apart = record {
  users_distinct = apart;
  accounts_distinct = tt;
  tokens_distinct = tt;
  accounts_owned = tt;
  tokens_owned = tt;
}

swapped : {x a b : User} → Memᴰ x (a ∷ b ∷ []) → Memᴰ x (b ∷ a ∷ [])
swapped (Memᴰ.head e) = Memᴰ.tail (Memᴰ.head e)
swapped (Memᴰ.tail (Memᴰ.head e)) = Memᴰ.head e
swapped (Memᴰ.tail (Memᴰ.tail m)) = elim m [ ]

one_order : IsConsistent (rows_with (bea ∷ carl ∷ []))
one_order = rows_with-IsConsistent (bea ∷ carl ∷ []) (refl, (refl, tt))

other_order : IsConsistent (rows_with (carl ∷ bea ∷ []))
other_order = rows_with-IsConsistent (carl ∷ bea ∷ []) (refl, (refl, tt))

abbrev one : World memory
one = world_with (bea ∷ carl ∷ [])

abbrev other : World memory
other = world_with (carl ∷ bea ∷ [])

queries-order_example :
    ((get_by_email {P = memory} "carl@example.com" one).0
      ≡ (get_by_email {P = memory} "carl@example.com" other).0)
    × ((get_by_id {P = memory} 1 one).0 ≡ (get_by_id {P = memory} 1 other).0)
    × ((get_by_jti {P = memory} "j" one).0 ≡ (get_by_jti {P = memory} "j" other).0)
    × ((get_with_user {P = memory} "j" one).0 ≡ (get_with_user {P = memory} "j" other).0)
    × ((get_by_provider_identity {P = memory} "google" "7" one).0
        ≡ (get_by_provider_identity {P = memory} "google" "7" other).0)
queries-order_example =
    queries-order memory-IsDocumented one other one_order other_order
      (Quot.sound (λ x. (swapped, swapped))) refl refl "carl@example.com" "j" "google" "7" 1
