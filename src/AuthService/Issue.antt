-- ===== src/AuthService/Issue.antt =====
-- A refresh token that was issued passes the checks of a refresh until it expires.
use smart_auth_with_kubernat.Prelude.{
  ℕ, zero, suc, ◌+◌, ◌-◌, ◌/◌, ◌≤◌, ◌<◌, String, ◌≡◌, refl, sym, ◌∙◌, true, some, none, arith,
  truthy, string_eq, ==_refl, ==_iff,
}
use native.Mathlib.Numerals.{unary_clauses}
use native.Mathlib.Nat.{le_refl, le_trans}
use smart_auth_with_kubernat.AuthService.{issue_token_pair, check_refresh_token}
use smart_auth_with_kubernat.AuthService.Check.{check_refresh_token-ok}
use smart_auth_with_kubernat.Config.{Settings}
use smart_auth_with_kubernat.Exec.{ok, commit, now, draw, ◌>>=◌}
use smart_auth_with_kubernat.Models.{User, RefreshToken, TokenResponse}
use smart_auth_with_kubernat.Platform.{Platform, IsDocumented, World}
use smart_auth_with_kubernat.Platform.Libraries.{Payload, claims}
use smart_auth_with_kubernat.Platform.Redis.{micro}
use smart_auth_with_kubernat.Repositories.{add_token}
use smart_auth_with_kubernat.Security.{create_access_token, create_refresh_token, days, sign}

module _ {P : Platform} (settings : Settings) (user : User) (w : World P) where
  -- the token that an issue in this world signs, and its record
  abbrev pub issued_payload : Payload
  issued_payload = record {
    sub = P.uuid_text user.id;
    type = "refresh";
    exp = P.clock (w.readings + 1 + 1) + days settings.refresh_token_expire_days;
    iat = P.clock (w.readings + 1 + 1 + 1);
    jti = P.uuid_text (P.uuid4 (w.draws + 1));
  }

  abbrev pub issued_record : RefreshToken
  issued_record = record {
    id = P.uuid4 (w.draws + 1 + 1);
    user_id = user.id;
    jti = P.uuid_text (P.uuid4 (w.draws + 1));
    expires_at = P.clock (w.readings + 1 + 1) + days settings.refresh_token_expire_days;
    revoked_at = none;
    created_at = P.server_now w.session;
  }

  issue-eq-ok :
      (w' : World P) (response : TokenResponse)
      → issue_token_pair settings user w ≡ (ok response, w')
      → (response.refresh_token ≡ sign P settings issued_payload)
        × (w'.session ≡ P.commit (P.add_token issued_record w.session))
        × (w'.readings ≡ w.readings + 5)
  unfolding issue_token_pair create_access_token create_refresh_token add_token commit now draw
      ◌>>=◌
  issue-eq-ok w' response h = ground arith

truthy-of-text : (s : String) → ((s ≡ "") → ⊥) → truthy (some s) ≡ some s
truthy-of-text s full = ground (arith, ==_iff s "")

module _ {P : Platform} (L : IsDocumented P) where
  clock_le : (i k : ℕ) → P.clock i ≤ P.clock (i + k)
  clock_le i zero = simp unary_clauses (le_refl (P.clock i))
  clock_le i (suc k) =
      let next : i + suc k ≡ i + k + 1 = omega arith in
      rw next (le_trans (clock_le i k) (L.clock_mono (i + k)))

  clock_sorted : (i j : ℕ) → i ≤ j → P.clock i ≤ P.clock j
  clock_sorted i j h = let whole : i + (j - i) ≡ j = omega arith in rw whole at (clock_le i (j - i))

  select_token-issued :
      (t : RefreshToken) (s : P.Session)
      → P.select_token t.jti (P.commit (P.add_token t s)) ≡ some t
  select_token-issued t s =
      rw
        (
          L.select_token_lem t.jti (P.commit (P.add_token t s)),
          L.rows-commit (P.add_token t s),
          L.rows-add_token t s,
        )
        (ground (arith, ==_refl t.jti))

  get_user-issued :
      (i : ℕ) (t : RefreshToken) (s : P.Session)
      → P.get_user i (P.commit (P.add_token t s)) ≡ P.get_user i s
  get_user-issued i t s =
      rw
        (
          L.get_user_lem i (P.commit (P.add_token t s)),
          L.rows-commit (P.add_token t s),
          L.rows-add_token t s,
        )
        (sym (L.get_user_lem i s))

module _ {P : Platform} (L : IsDocumented P) (settings : Settings) where
  -- A token that was issued to an active user of the tables passes the checks of a refresh, and names
  -- its record and its user, as long as the tables stay as they are and its last second has not begun.
  pub issue-check :
      (user : User) (w w' v : World P) (response : TokenResponse)
      → issue_token_pair settings user w ≡ (ok response, w')
      → user.is_active ≡ true
      → P.get_user user.id w.session ≡ some user
      → v.session ≡ w'.session
      → w'.readings ≤ v.readings
      → P.clock (v.readings + 1) / micro < (issued_record settings user w).expires_at / micro
      → check_refresh_token settings response.refresh_token v
        ≡ (ok (issued_record settings user w, user), record v { readings = v.readings + 1 + 1 })
  issue-check user w w' v response h active known same later early =
      let t = issued_record settings user w in
      let p = issued_payload settings user w in
      let (is_token, is_session, is_readings) = issue-eq-ok settings user w w' response h in
      let begun = clock_sorted L (w.readings + 1 + 1 + 1) v.readings (omega arith) in
      let tick = L.clock_mono v.readings in
      rw is_token (
        check_refresh_token-ok settings _ v t user (record {
          payload = claims p;
          jti = p.jti;
          decoded =
              L.decode-encode p settings.secret_key settings.jwt_algorithm (P.clock v.readings)
                (omega arith) (omega arith);
          is_refresh = ==_refl {Value = String} "refresh";
          has_jti = truthy-of-text p.jti (L.uuid_text-ne-empty _);
          has_subject = truthy-of-text p.sub (L.uuid_text-ne-empty _);
          selected = rw (same, is_session) (select_token-issued L t w.session);
          not_revoked = refl;
          not_expired = ground arith;
          owner = rw (same, is_session) (get_user-issued L user.id t w.session ∙ known);
          active = active;
        }))
