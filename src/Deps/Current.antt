-- ===== src/Deps/Current.antt =====
-- `get_current_user`: whom an access token stands for.
use smart_auth_with_kubernat.Prelude.{
  ℕ, ◌+◌, String, ◌≡◌, ◌↔◌, sym, ◌∙◌, true, Option, some, none, truthy, arith,
}
use smart_auth_with_kubernat.Prelude.Rows.{find?}
use smart_auth_with_kubernat.AuthService.Check.{decode_token-eq-ok, world-decode_token}
use smart_auth_with_kubernat.Config.{Settings}
use smart_auth_with_kubernat.Deps.{get_current_user, no_user}
use smart_auth_with_kubernat.Exec.{ok, now, or_raise, ◌>>=◌}
use smart_auth_with_kubernat.Exec.Inversion.{bind-eq-ok, or_raise-bind-eq-ok, query-bind}
use smart_auth_with_kubernat.Models.{User}
use smart_auth_with_kubernat.Platform.{Platform, IsDocumented, World}
use smart_auth_with_kubernat.Platform.Database.{is_active_id}
use smart_auth_with_kubernat.Platform.Libraries.{Claims}
use smart_auth_with_kubernat.Security.{decode_token, is_text}

module _ {P : Platform} (settings : Settings) where
  -- The credentials are an access token that verifies, whose subject is the id of an active user.
  pub record IsCurrent (credentials : Option String) (w : World P) (u : User) : Type 0 where
    pub token : String
    pub payload : Claims
    pub subject : String
    pub i : ℕ
    pub given : credentials ≡ some token
    pub decoded :
        P.decode (P.clock w.readings) token settings.secret_key settings.jwt_algorithm
        ≡ some payload
    pub is_access : is_text payload.type "access" ≡ true
    pub has_subject : truthy payload.sub ≡ some subject
    pub parsed : P.parse_uuid subject ≡ some i
    pub found : find? (is_active_id i) (P.rows w.session).users ≡ some u

module _ {P : Platform} (L : IsDocumented P) (settings : Settings) where
  get_current_user-ok :
      (credentials : Option String) (w : World P) (u : User)
      → IsCurrent settings credentials w u
      → get_current_user settings credentials w ≡ (ok u, record w { readings = w.readings + 1 })
  unfolding get_current_user decode_token now ◌>>=◌
  get_current_user-ok credentials w u g = simp (
    g.given,
    g.decoded,
    g.is_access,
    g.has_subject,
    g.parsed,
    L.select_active_user_lem g.i w.session ∙ g.found,
  )

  or_raise-eq-ok :
      (o : Option User) (w w' : World P) (u : User) → or_raise o no_user w ≡ (ok u, w') → o ≡ some u
  unfolding ◌>>=◌
  or_raise-eq-ok none w w' u h = cc
  or_raise-eq-ok (some v) w w' u h = cc

  get_current_user-eq-ok :
      (credentials : Option String) (w w' : World P) (u : User)
      → get_current_user settings credentials w ≡ (ok u, w')
      → IsCurrent settings credentials w u
  unfolding get_current_user
  get_current_user-eq-ok credentials w w' u h =
      let (token, given, h₀) = or_raise-bind-eq-ok _ _ _ w h in
      let (payload, read, h₁) = bind-eq-ok _ _ w h₀ in
      let (decoded, is_access) = decode_token-eq-ok settings token "access" w read in
      let (subject, has_subject, h₂) = or_raise-bind-eq-ok _ _ _ _ (rw world-decode_token at h₁) in
      let (i, parsed, h₃) = or_raise-bind-eq-ok _ _ _ _ h₂ in
      let chosen = or_raise-eq-ok _ _ w' u (rw query-bind at h₃) in
      record {
        token = token;
        payload = payload;
        subject = subject;
        i = i;
        given = given;
        decoded = decoded;
        is_access = is_access;
        has_subject = has_subject;
        parsed = parsed;
        found = sym (L.select_active_user_lem i w.session) ∙ chosen;
      }

  session-get_current_user :
      (credentials : Option String) (w : World P)
      → (get_current_user settings credentials w).1.session ≡ w.session
  unfolding get_current_user decode_token now ◌>>=◌
  session-get_current_user credentials w = ground arith

  -- A user is let through exactly where the credentials are an access token that verifies, whose
  -- subject is the id of that user, who is active. It leaves the session alone, whatever the
  -- credentials are, and where it lets a user through it has only read the clock.
  pub get_current_user_iff :
      (credentials : Option String) (w : World P) (u : User)
      → ((get_current_user settings credentials w ≡ (ok u, record w { readings = w.readings + 1 }))
          ↔ IsCurrent settings credentials w u)
        × ((get_current_user settings credentials w).1.session ≡ w.session)
  get_current_user_iff credentials w u = (
    (get_current_user-eq-ok credentials w _ u, get_current_user-ok credentials w u),
    session-get_current_user credentials w,
  )
