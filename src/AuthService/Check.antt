-- ===== src/AuthService/Check.antt =====
-- The reading part of `refresh_access_pair`: it writes nothing, and lets a token through exactly
-- where every check holds.
use smart_auth_with_kubernat.Prelude.{
  truthy, String, ◌≡◌, ◌↔◌, sym, ap, ◌∙◌, ◌+◌, true, false, Option, some, none, arith, inl, inr,
  Option-cases, leb, ==_iff, ==_refl, string_eq,
}
use smart_auth_with_kubernat.AuthService.{
  check_refresh_token, check_refresh_record, both, unrevoked, bad_payload,
}
use smart_auth_with_kubernat.Config.{Settings}
use smart_auth_with_kubernat.Exec.{ok, or_raise, now, ◌>>=◌}
use smart_auth_with_kubernat.Exec.Inversion.{bind-eq-ok, or_raise-bind-eq-ok, query-bind}
use smart_auth_with_kubernat.Models.{User, RefreshToken}
use smart_auth_with_kubernat.Platform.{Platform, World}
use smart_auth_with_kubernat.Platform.Libraries.{Claims}
use smart_auth_with_kubernat.Repositories.{with_user, get_with_user}
use smart_auth_with_kubernat.Security.{decode_token, is_text}

both-eq-some :
    (a b : Option String) {j s : String} → both a b ≡ some (j, s) → (a ≡ some j) × (b ≡ some s)
both-eq-some a b h = ground arith

module _ (P : Platform) where
  unrevoked-eq-some :
      (s : P.Session) (jti : String) {t : RefreshToken} {o : Option User}
      → unrevoked (with_user P s (P.select_token jti s)) ≡ some (t, o)
      → (P.select_token jti s ≡ some t) × (t.revoked_at ≡ none) × (o ≡ P.get_user t.user_id s)
  unrevoked-eq-some s jti h = elim (Option-cases (P.select_token jti s)) [
    | inl e ↦ absurd (let h' = rw e at h in cc)
    | inr (t, e) ↦ let h' = rw e at h in ground (arith, Option-cases t.revoked_at)
  ]

module _ {P : Platform} (settings : Settings) where
  -- The checks write nothing.
  pub session-check_refresh_token :
      (token : String) (w : World P) → (check_refresh_token settings token w).1.session ≡ w.session
  unfolding check_refresh_token check_refresh_record decode_token now ◌>>=◌
  session-check_refresh_token token w = ground arith

  -- What the checks have seen of a token that they let through.
  pub record IsGood (token : String) (w : World P) (t : RefreshToken) (u : User) : Type 0 where
    pub payload : Claims
    pub jti : String
    pub decoded :
        P.decode (P.clock w.readings) token settings.secret_key settings.jwt_algorithm
        ≡ some payload
    pub is_refresh : is_text payload.type "refresh" ≡ true
    pub has_jti : truthy payload.jti ≡ some jti
    pub has_subject : truthy payload.sub ≡ some (P.uuid_text t.user_id)
    pub selected : P.select_token jti w.session ≡ some t
    pub not_revoked : t.revoked_at ≡ none
    pub not_expired : leb t.expires_at (P.clock (w.readings + 1)) ≡ false
    pub owner : P.get_user t.user_id w.session ≡ some u
    pub active : u.is_active ≡ true

  pub check_refresh_token-ok :
      (token : String) (w : World P) (t : RefreshToken) (u : User)
      → IsGood token w t u
      → check_refresh_token settings token w
        ≡ (ok (t, u), record w { readings = w.readings + 1 + 1 })
  unfolding check_refresh_token check_refresh_record decode_token now ◌>>=◌
  check_refresh_token-ok token w t u g = simp (
    g.decoded,
    g.is_refresh,
    g.has_jti,
    g.has_subject,
    g.selected,
    g.not_revoked,
    g.not_expired,
    ==_refl (P.uuid_text t.user_id),
    g.owner,
    g.active,
  )

  pub decode_token-eq-ok :
      (token expected : String) (w : World P) {c : Claims}
      → (decode_token settings token expected w).0 ≡ ok c
      → (P.decode (P.clock w.readings) token settings.secret_key settings.jwt_algorithm ≡ some c)
        × (is_text c.type expected ≡ true)
  unfolding decode_token now ◌>>=◌
  decode_token-eq-ok token expected w h = ground (
    arith,
    Option-cases (P.decode (P.clock w.readings) token settings.secret_key settings.jwt_algorithm),
  )

  pub world-decode_token :
      (token expected : String) (w : World P)
      → (decode_token settings token expected w).1 ≡ record w { readings = w.readings + 1 }
  unfolding decode_token now ◌>>=◌
  world-decode_token token expected w = ground arith

  check_refresh_record-eq-ok :
      (subject : String) (found : Option (RefreshToken × Option User)) (w w' : World P)
      (t : RefreshToken) (u : User)
      → check_refresh_record subject found w ≡ (ok (t, u), w')
      → (unrevoked found ≡ some (t, some u))
        × (leb t.expires_at (P.clock w.readings) ≡ false)
        × (P.uuid_text t.user_id ≡ subject)
        × (u.is_active ≡ true)
  unfolding check_refresh_record now ◌>>=◌
  check_refresh_record-eq-ok subject none w w' t u h = cc
  check_refresh_record-eq-ok subject (some (t', none)) w w' t u h =
      absurd (ground (arith, Option-cases t'.revoked_at))
  check_refresh_record-eq-ok subject (some (t', some u')) w w' t u h =
      ground (arith, Option-cases t'.revoked_at, ==_iff (P.uuid_text t'.user_id) subject)

  check-payload :
      (token : String) (w w' : World P) (t : RefreshToken) (u : User) (payload : Claims)
      → P.decode (P.clock w.readings) token settings.secret_key settings.jwt_algorithm
        ≡ some payload
      → is_text payload.type "refresh" ≡ true
      → (do
        (jti, subject) ← or_raise (both (truthy payload.jti) (truthy payload.sub)) bad_payload
        found ← get_with_user jti
        check_refresh_record subject found)
          (record w { readings = w.readings + 1 })
        ≡ (ok (t, u), w')
      → IsGood token w t u
  check-payload token w w' t u payload decoded is_refresh h =
      let ((jti, subject), set, h₁) = or_raise-bind-eq-ok _ _ _ _ h in
      let (has_jti, has_subject) = both-eq-some (truthy payload.jti) (truthy payload.sub) set in
      let (found, not_expired, same, active) =
        check_refresh_record-eq-ok subject _ _ w' t u (rw query-bind at h₁) in
      let (selected, not_revoked, owned) = unrevoked-eq-some P w.session jti found in
      record {
        payload = payload;
        jti = jti;
        decoded = decoded;
        is_refresh = is_refresh;
        has_jti = has_jti;
        has_subject = has_subject ∙ ap some (sym same);
        selected = selected;
        not_revoked = not_revoked;
        not_expired = not_expired;
        owner = sym owned;
        active = active;
      }

  -- A token that they let through passes every check.
  pub check_refresh_token-eq-ok :
      (token : String) (w w' : World P) (t : RefreshToken) (u : User)
      → check_refresh_token settings token w ≡ (ok (t, u), w')
      → IsGood token w t u
  unfolding check_refresh_token
  check_refresh_token-eq-ok token w w' t u h =
      let (payload, h₀, h₁) = bind-eq-ok _ _ w h in
      let (decoded, is_refresh) = decode_token-eq-ok token "refresh" w h₀ in
      check-payload token w w' t u payload decoded is_refresh (rw world-decode_token at h₁)

  -- The checks let a token through exactly where it verifies as a refresh token whose record is
  -- there, not revoked, not expired and its subject's, and whose user is active.
  pub check_refresh_token_iff :
      (token : String) (w : World P) (t : RefreshToken) (u : User)
      → (check_refresh_token settings token w
          ≡ (ok (t, u), record w { readings = w.readings + 1 + 1 }))
        ↔ IsGood token w t u
  check_refresh_token_iff token w t u =
      (check_refresh_token-eq-ok token w _ t u, check_refresh_token-ok token w t u)
