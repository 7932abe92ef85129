-- ===== src/Interleaving/Registrations.antt =====
-- Two registrations of one e-mail whose look-ups both find it free.
use smart_auth_with_kubernat.Prelude.{
  ◌≡◌, refl, sym, ap, ◌∙◌, true, Bool, not, ◌||◌, some, is_some, arith, List, [], ◌∷◌, nat_eq,
  string_eq, ==_iff,
}
use smart_auth_with_kubernat.Prelude.Rows.{find?}
use smart_auth_with_kubernat.Prelude.Texts.{lower}
use smart_auth_with_kubernat.AuthService.{insert_user}
use smart_auth_with_kubernat.AuthService.Register.{registered, select-registered}
use smart_auth_with_kubernat.Constraints.{Changes}
use smart_auth_with_kubernat.Exec.{ok, err, exception, commit, draw, ◌>>=◌}
use smart_auth_with_kubernat.Models.{User, RegisterRequest}
use smart_auth_with_kubernat.Platform.{Platform, IsDocumented, World}
use smart_auth_with_kubernat.Platform.Database.{has_email, user_clashes}
use smart_auth_with_kubernat.Repositories.{add_user}
use smart_auth_with_kubernat.Routes.Logins.{login_of, login_in, Changes-login_in, login_of-eq-some}
use smart_auth_with_kubernat.Security.{hash_password}

-- A row of an e-mail that has a user clashes with it.
clashes_of_email :
    (u v : User) (l : List User)
    → find? (has_email u.email) l ≡ some v
    → is_some (find? (user_clashes u) l) ≡ true
clashes_of_email u v [] h = cc
clashes_of_email u v (x ∷ l) h = ground (arith, clashes_of_email u v l, ==_iff x.email u.email)

clash-rejects : (fits clash rejected : Bool) → clash ≡ true → not fits || clash || rejected ≡ true
clash-rejects fits clash rejected h = ground arith

module _ {P : Platform} (L : IsDocumented P) where
  -- A registration whose e-mail has got a user since it looked is refused by the database: the
  -- exception is no HTTP error, and the tables stay as they were committed.
  late_registration :
      (payload : RegisterRequest) (w : World P) (v : User)
      → P.select_user (lower payload.email) w.session ≡ some v
      → P.saved w.session ≡ P.rows w.session
      → ((insert_user payload w).0 ≡ err (exception "DBAPIError"))
        × (P.rows (insert_user payload w).1.session ≡ P.rows w.session)
  unfolding insert_user ◌>>=◌ hash_password add_user commit draw
  late_registration payload w v taken committed =
      let u = registered payload w in
      let pending = P.add_user u w.session in
      let clash =
        clashes_of_email u v (P.rows w.session).users
          (sym (L.select_user_lem (lower payload.email) w.session) ∙ taken) in
      let refused : P.rejects pending ≡ true =
        L.rejects-add_user u w.session ∙ clash-rejects _ _ _ clash in
      rw refused (refl, L.rows-rollback pending ∙ L.saved-add_user u w.session ∙ committed)

  insert_user-eq-ok :
      (payload : RegisterRequest) (w w' : World P) (u : User)
      → insert_user payload w ≡ (ok u, w')
      → w'.session ≡ P.commit (P.add_user (registered payload w) w.session)
  unfolding insert_user ◌>>=◌ hash_password add_user commit draw
  insert_user-eq-ok payload w w' u h = ground arith

  -- Once a user was added for a registration, adding one for another registration of the e-mail is
  -- refused by the database, though its look-up may have come before, and leaves the tables alone,
  -- whatever transactions change them in between.
  pub second_registration :
      (payload other : RegisterRequest) (w w' v : World P) (u : User)
      → insert_user payload w ≡ (ok u, w')
      → lower other.email ≡ lower payload.email
      → Changes (P.rows w'.session) (P.rows v.session)
      → P.saved v.session ≡ P.rows v.session
      → ((insert_user other v).0 ≡ err (exception "DBAPIError"))
        × (P.rows (insert_user other v).1.session ≡ P.rows v.session)
  second_registration payload other w w' v u h same changes committed =
      let row = registered payload w in
      let added = insert_user-eq-ok payload w w' u h in
      let there = select-registered L payload other.email w same in
      let before : login_in (lower other.email) (P.rows w'.session) ≡ login_of (some row) =
        ap login_of (
          sym (L.select_user_lem (lower other.email) w'.session)
          ∙ ap (P.select_user (lower other.email)) added
          ∙ there) in
      let after = Changes-login_in (lower other.email) _ changes before in
      let (x, found, _, _, _) =
        login_of-eq-some (find? (has_email (lower other.email)) (P.rows v.session).users) _ after in
      late_registration other v x (L.select_user_lem (lower other.email) v.session ∙ found)
        committed
