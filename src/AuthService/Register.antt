-- ===== src/AuthService/Register.antt =====
-- `register_user` and `authenticate_user`: what each branch returns and writes, and that who has
-- registered can log in.
use smart_auth_with_kubernat.Prelude.{
  String, ◌≡◌, ◌+◌, false, some, none, arith, is_some, if◌then◌else◌, ==_iff, string_eq,
}
use smart_auth_with_kubernat.Prelude.Texts.{lower}
use smart_auth_with_kubernat.AuthService.{
  register_user, authenticate_user, with_password, email_taken, bad_credentials, inactive,
}
use smart_auth_with_kubernat.Exec.{ok, err, exception, commit, draw, ◌>>=◌}
use smart_auth_with_kubernat.Models.{User, RegisterRequest, user_row}
use smart_auth_with_kubernat.Platform.{Platform, IsDocumented, World}
use smart_auth_with_kubernat.Repositories.{add_user}
use smart_auth_with_kubernat.Security.{hash_password, verify_password}

module _ {P : Platform} where
  -- the row that a registration adds
  abbrev pub registered : RegisterRequest → World P → User
  registered payload w =
      user_row
        (record {
          email = lower payload.email;
          full_name = payload.full_name;
          password_hash = some (P.hash w.draws payload.password);
          avatar_url = none;
          email_verified = false;
        })
        (P.uuid4 (w.draws + 1)) (P.server_now w.session)

module _ {P : Platform} (L : IsDocumented P) where
  -- A registration is refused with 409 where the lower-cased e-mail has a user; otherwise it adds one
  -- row, which the commit keeps, or, where the flush rejects it, rolls back.
  pub register_user_lem :
      (payload : RegisterRequest) (w : World P)
      → let u = registered payload w in
        let pending = P.add_user u w.session in
        register_user payload w ≡ (
          if is_some (P.select_user (lower payload.email) w.session)
          then (err email_taken, w)
          else if P.rejects pending
          then (
            err (exception "DBAPIError"),
            record w { session = P.rollback pending; draws = w.draws + 1 + 1 },
          )
          else (ok u, record w { session = P.commit pending; draws = w.draws + 1 + 1 }))
  unfolding register_user ◌>>=◌ hash_password add_user commit draw
  register_user_lem payload w =
      let u = registered payload w in
      let pending = P.add_user u w.session in
      ground (
        arith,
        L.get_user_lem u.id (P.commit pending),
        L.rows-commit pending,
        L.rows-add_user u w.session,
      )

  -- A login returns the user of the lower-cased e-mail where the password verifies and the user is
  -- active, is refused with 401 or 403 otherwise, and changes nothing.
  pub authenticate_user_lem :
      (email password : String) (w : World P)
      → authenticate_user email password w
        ≡ (elim (with_password P password (P.select_user (lower email) w.session)) [
          | none ↦ (err bad_credentials, w)
          | some u ↦ if u.is_active then (ok u, w) else (err inactive, w)
        ])
  unfolding authenticate_user ◌>>=◌
  authenticate_user_lem email password w = ground arith

  register-eq-ok :
      (payload : RegisterRequest) (w w' : World P) (u : User)
      → register_user payload w ≡ (ok u, w')
      → let v = registered payload w in
        (u ≡ v)
        × (w' ≡ record w { session = P.commit (P.add_user v w.session); draws = w.draws + 1 + 1 })
  register-eq-ok payload w w' u done = ground (arith, register_user_lem payload w)

  -- the password of a registration is the one that its row verifies
  with_password-registered :
      (payload : RegisterRequest) (w : World P)
      → with_password P payload.password (some (registered payload w)) ≡ some (registered payload w)
  unfolding verify_password
  with_password-registered payload w =
      let hashed = P.hash w.draws payload.password in
      ground (
        arith,
        L.hash-ne-empty w.draws payload.password,
        L.verify-hash w.draws payload.password,
        ==_iff hashed "",
      )

  pub select-registered :
      (payload : RegisterRequest) (email : String) (w : World P)
      → lower email ≡ lower payload.email
      → let v = registered payload w in
        P.select_user (lower email) (P.commit (P.add_user v w.session)) ≡ some v
  select-registered payload email w same =
      let v = registered payload w in
      let pending = P.add_user v w.session in
      ground (
        arith,
        L.select_user_lem (lower email) (P.commit pending),
        L.rows-commit pending,
        L.rows-add_user v w.session,
        ==_iff (lower payload.email) (lower email),
      )

  -- A user who has registered can log in at once with the same password and with the e-mail in any
  -- case.
  pub register-authenticate :
      (payload : RegisterRequest) (email : String) (w w' : World P) (u : User)
      → lower email ≡ lower payload.email
      → register_user payload w ≡ (ok u, w')
      → authenticate_user email payload.password w' ≡ (ok u, w')
  register-authenticate payload email w w' u same done =
      let (is_row, is_after) = register-eq-ok payload w w' u done in
      rw authenticate_user_lem (
        ground (
          arith,
          is_row,
          is_after,
          select-registered payload email w same,
          with_password-registered payload w,
        ))
