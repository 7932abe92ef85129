-- ===== src/Routes/Logins.antt =====
-- Whatever requests are served, who could log in still can.
use smart_auth_with_kubernat.Prelude.{
  ℕ, String, ◌≡◌, refl, sym, ap, ◌∙◌, Bool, true, false, Option, none, some, List, [], ◌∷◌, arith,
  inl, inr, is_some, Bool-cases, Option-cases, nat_eq, string_eq, ==_iff, if◌then◌else◌,
}
use mathlib.Core.Option
use smart_auth_with_kubernat.Prelude.Rows.{find?, find?-update}
use smart_auth_with_kubernat.Prelude.Texts.{lower}
use smart_auth_with_kubernat.AuthService.{authenticate_user}
use smart_auth_with_kubernat.AuthService.Register.{authenticate_user_lem}
use smart_auth_with_kubernat.Config.{Settings}
use smart_auth_with_kubernat.Constraints.{
  Change, Changes, new_user, new_account, new_token, assigned, token_revoked, here, next,
}
use smart_auth_with_kubernat.Exec.{ok}
use smart_auth_with_kubernat.Models.{User, Assignment, full_name, assign}
use smart_auth_with_kubernat.Platform.{Platform, IsDocumented, World}
use smart_auth_with_kubernat.Platform.Database.{Rows, has_id, has_email, user_clashes}
use smart_auth_with_kubernat.RateLimiter.{Request}
use smart_auth_with_kubernat.Routes.{Call, serve_all}
use smart_auth_with_kubernat.Routes.Invariant.{serve_all-IsSettled}
use smart_auth_with_kubernat.Security.{verify_password}

-- what a login asks of a user
abbrev pub login_of : Option User → Option (ℕ × Option String × Bool)
login_of none = none
login_of (some u) = some (u.id, u.password_hash, u.is_active)

abbrev pub login_in : String → Rows → Option (ℕ × Option String × Bool)
login_in email r = login_of (find? (has_email email) r.users)

-- A row of an e-mail that has a user clashes with it.
clashes_of_email :
    (u : User) (e : String) (l : List User) (k : ℕ × Option String × Bool)
    → has_email e u ≡ true
    → login_of (find? (has_email e) l) ≡ some k
    → is_some (find? (user_clashes u) l) ≡ true
clashes_of_email u e [] k same h = cc
clashes_of_email u e (v ∷ l) k same h = ground (
  arith,
  clashes_of_email u e l k same,
  ==_iff u.email e,
  ==_iff v.email e,
  ==_iff v.email u.email,
)

pub login_of-eq-some :
    (found : Option User) (k : ℕ × Option String × Bool)
    → login_of found ≡ some k
    → (u : User) × (found ≡ some u) × (u.id ≡ k.0) × (u.password_hash ≡ k.1) × (u.is_active ≡ k.2)
login_of-eq-some none k h = ground arith
login_of-eq-some (some u) k h = (u, refl, cc, cc, cc)

has_email-assign :
    (e : String) (t : ℕ) (a : Assignment) (u : User) → has_email e (assign t a u) ≡ has_email e u
has_email-assign e t (full_name v) u = ground arith
has_email-assign e t _ u = ground arith

login_of-assign :
    (i t : ℕ) (a : Assignment) (found : Option User)
    → login_of (Option.map (λ u. if has_id i u then assign t a u else u) found) ≡ login_of found
login_of-assign i t a none = refl
login_of-assign i t (full_name v) (some u) = ground arith
login_of-assign i t (Assignment.avatar_url v) (some u) = ground arith
login_of-assign i t (Assignment.email_verified v) (some u) = ground arith

Change-login_in :
    {r r' : Rows} (e : String) (k : ℕ × Option String × Bool)
    → Change r r'
    → login_in e r ≡ some k
    → login_in e r' ≡ some k
Change-login_in {r} e k (new_user u fresh) h = elim (Bool-cases (has_email e u)) [
  | inl same ↦ absurd (let clash = clashes_of_email u e r.users k same h in cc)
  | inr other ↦ rw other h
]
Change-login_in e k (new_account a fresh owner) h = h
Change-login_in e k (new_token t fresh owner) h = h
Change-login_in {r} e k (assigned i t a) h =
    rw (find?-update (has_id i) (has_email e) (assign t a) r.users (has_email-assign e t a))
      (login_of-assign i t a (find? (has_email e) r.users) ∙ h)
Change-login_in e k (token_revoked i now) h = h

-- No transaction changes the id, the password or the activity of a user.
pub Changes-login_in :
    {r r' : Rows} (e : String) (k : ℕ × Option String × Bool)
    → Changes r r'
    → login_in e r ≡ some k
    → login_in e r' ≡ some k
Changes-login_in e k here h = h
Changes-login_in e k (next c d) h = Change-login_in e k d (Changes-login_in e k c h)

module _ {P : Platform} (L : IsDocumented P) where
  -- a login that succeeds, by the user of the e-mail
  login-found :
      (email password : String) (w w' : World P) (u : User)
      → authenticate_user email password w ≡ (ok u, w')
      → (P.select_user (lower email) w.session ≡ some u)
        × (verify_password P password u.password_hash ≡ true)
        × (u.is_active ≡ true)
  login-found email password w w' u h = ground (
    arith,
    authenticate_user_lem L email password w,
    Option-cases (P.select_user (lower email) w.session),
  )

  login-again :
      (email password : String) (w : World P) (v : User)
      → P.select_user (lower email) w.session ≡ some v
      → verify_password P password v.password_hash ≡ true
      → v.is_active ≡ true
      → authenticate_user email password w ≡ (ok v, w)
  login-again email password w v found verified active =
      ground (arith, authenticate_user_lem L email password w)

  -- From a session with everything committed and nothing for the next flush to refuse: who could log
  -- in still can, as the same user and with the same password, whatever requests are served.
  pub logins-persist :
      (settings : Settings) (calls : List (Request × Call)) (email password : String)
      (w w' : World P) (u : User)
      → P.saved w.session ≡ P.rows w.session
      → P.rejects w.session ≡ false
      → authenticate_user email password w ≡ (ok u, w')
      → let v = serve_all settings calls w in
        (again : User) × (again.id ≡ u.id) × (authenticate_user email password v ≡ (ok again, v))
  logins-persist settings calls email password w w' u committed accepted h =
      let v = serve_all settings calls w in
      let (found, verified, active) = login-found email password w w' u h in
      let served =
        serve_all-IsSettled L settings calls w
          (record { reached = here; committed = committed; accepted = accepted }) in
      let key : login_in (lower email) (P.rows w.session)
          ≡ some (u.id, u.password_hash, u.is_active) =
        ap login_of (sym (L.select_user_lem (lower email) w.session) ∙ found) in
      let after = Changes-login_in (lower email) _ served.reached key in
      let (again, there, same, hash, alive) =
        login_of-eq-some (find? (has_email (lower email)) (P.rows v.session).users) _ after in
      (
        again,
        same,
        login-again email password v again (L.select_user_lem (lower email) v.session ∙ there)
            (ap (verify_password P password) hash ∙ verified) (alive ∙ active),
      )
