-- ===== src/AuthService/Rotation.antt =====
-- A refresh token is good for one rotation: once used or logged out it is refused ever after.
use smart_auth_with_kubernat.Prelude.{
  truthy, ℕ, ◌+◌, String, ◌≡◌, ◌≢◌, sym, ap, ◌∙◌, refl, Bool, true, false, Option, none, some, List,
  [], ◌∷◌, arith, inl, inr, is_some, Bool-cases, Option-cases, ◌==◌, nat_eq, string_eq, ==_iff,
}
use smart_auth_with_kubernat.Prelude.Rows.{find?, find?-update}
use smart_auth_with_kubernat.AuthService.{
  refresh_access_pair, check_refresh_token, rotate_refresh_token, issue_token_pair,
}
use smart_auth_with_kubernat.AuthService.Check.{
  check_refresh_token-eq-ok, session-check_refresh_token,
}
use smart_auth_with_kubernat.AuthService.Invariant.{Ends-issue_token_pair}
use smart_auth_with_kubernat.Constraints.{
  Change, Changes, new_user, new_account, new_token, assigned, token_revoked, here, next,
}
use smart_auth_with_kubernat.Config.{Settings}
use smart_auth_with_kubernat.Exec.{ok, commit, now, ◌>>=◌}
use smart_auth_with_kubernat.Exec.Ends.{Ends-settles}
use smart_auth_with_kubernat.Exec.Inversion.{bind-eq-ok, pair_of_first}
use smart_auth_with_kubernat.Models.{User, RefreshToken, TokenResponse}
use smart_auth_with_kubernat.Platform.{Platform, IsDocumented, World}
use smart_auth_with_kubernat.Platform.Database.{
  Rows, has_jti, has_token_id, revoke_at, token_clashes,
}
use smart_auth_with_kubernat.Platform.Libraries.{Claims}
use smart_auth_with_kubernat.Settled.{IsSettled}

abbrev is_revoked : Option RefreshToken → Bool
is_revoked none = false
is_revoked (some t) = is_some t.revoked_at

-- the record with this `jti` is there and revoked
abbrev pub revoked_in : String → Rows → Bool
revoked_in j r = is_revoked (find? (has_jti j) r.tokens)

-- A record with the `jti` of a revoked one clashes with it.
clashes_of_jti :
    (t : RefreshToken) (j : String) (l : List RefreshToken)
    → (t.jti == j) ≡ true
    → is_revoked (find? (has_jti j) l) ≡ true
    → is_some (find? (token_clashes t) l) ≡ true
clashes_of_jti t j [] same h = cc
clashes_of_jti t j (v ∷ l) same h =
    ground (arith, clashes_of_jti t j l same, ==_iff t.jti j, ==_iff v.jti j, ==_iff v.jti t.jti)

pub Change-revoked_in :
    {r r' : Rows} (j : String) → Change r r' → revoked_in j r ≡ true → revoked_in j r' ≡ true
Change-revoked_in j (new_user u fresh) h = h
Change-revoked_in j (new_account a fresh owner) h = h
Change-revoked_in {r} j (new_token t fresh owner) h = elim (Bool-cases (t.jti == j)) [
  | inl same ↦ absurd (let clash = clashes_of_jti t j r.tokens same h in cc)
  | inr other ↦ rw other h
]
Change-revoked_in j (assigned i t a) h = h
Change-revoked_in {r} j (token_revoked i now) h =
    rw (find?-update (has_token_id i) (has_jti j) (revoke_at now) r.tokens (λ t. refl))
      (ground (arith, Option-cases (find? (has_jti j) r.tokens)))

-- Nothing takes a revocation back.
pub Changes-revoked_in :
    {r r' : Rows} (j : String) → Changes r r' → revoked_in j r ≡ true → revoked_in j r' ≡ true
Changes-revoked_in j here h = h
Changes-revoked_in j (next k c) h = Change-revoked_in j c (Changes-revoked_in j k h)

-- the session in which a record is revoked
abbrev pub revoking : (P : Platform) → RefreshToken → World P → P.Session
revoking P t w = P.assign_revoked_at t.id (P.clock w.readings) w.session

-- the world after the commit
abbrev pub after_revoking : (P : Platform) → RefreshToken → World P → World P
after_revoking P t w = record w { session = P.commit (revoking P t w); readings = w.readings + 1 }

pub rotate-eq-ok :
    {P : Platform} (settings : Settings) (t : RefreshToken) (u : User) (w w' : World P)
    (response : TokenResponse)
    → rotate_refresh_token settings (t, u) w ≡ (ok response, w')
    → (P.rejects (revoking P t w) ≡ false)
      × (issue_token_pair settings u (after_revoking P t w) ≡ (ok response, w'))
unfolding rotate_refresh_token commit now ◌>>=◌
rotate-eq-ok {P} settings t u w w' response h = elim (Bool-cases (P.rejects (revoking P t w))) [
  | inl refused ↦ absurd (let h' = rw refused at h in cc)
  | inr accepted ↦ (accepted, rw accepted at h)
]

module _ {P : Platform} (L : IsDocumented P) where
  after_revoking-IsSettled :
      (t : RefreshToken) (w : World P)
      → P.rejects (revoking P t w) ≡ false
      → IsSettled P (P.rows (after_revoking P t w).session) (after_revoking P t w).session
  after_revoking-IsSettled t w accepted = record {
    reached = here;
    committed = L.saved-commit (revoking P t w) ∙ sym (L.rows-commit (revoking P t w));
    accepted = L.rejects-commit (revoking P t w) ∙ accepted;
  }

  pub after_revoking-revoked_in :
      (t : RefreshToken) (w : World P) (j : String)
      → P.select_token j w.session ≡ some t
      → revoked_in j (P.rows (after_revoking P t w).session) ≡ true
  after_revoking-revoked_in t w j found =
      let at = P.clock w.readings in
      rw
        (
          L.rows-commit (revoking P t w),
          L.rows-assign_revoked_at t.id at w.session,
          find?-update (has_token_id t.id) (has_jti j) (revoke_at at) (P.rows w.session).tokens
              (λ t. refl),
          sym (L.select_token_lem j w.session),
          found,
        )
        (ground arith)

module _ {P : Platform} (L : IsDocumented P) (settings : Settings) where
  -- a rotation that returns leaves a settled session
  pub rotate-IsSettled :
      (t : RefreshToken) (u : User) (w w' : World P) (response : TokenResponse)
      → rotate_refresh_token settings (t, u) w ≡ (ok response, w')
      → IsSettled P (P.rows (after_revoking P t w).session) w'.session
  rotate-IsSettled t u w w' response h =
      let (accepted, issued) = rotate-eq-ok settings t u w w' response h in
      rw issued at (
        Ends-settles (issue_token_pair settings u) (after_revoking P t w)
          (Ends-issue_token_pair L settings u) (after_revoking-IsSettled L t w accepted))

  pub rotate-revokes :
      (t : RefreshToken) (u : User) (w w' : World P) (j : String) (response : TokenResponse)
      → P.select_token j w.session ≡ some t
      → rotate_refresh_token settings (t, u) w ≡ (ok response, w')
      → revoked_in j (P.rows w'.session) ≡ true
  rotate-revokes t u w w' j response found h =
      Changes-revoked_in j (rotate-IsSettled t u w w' response h).reached
        (after_revoking-revoked_in L t w j found)

  -- what a token says at a time
  abbrev says : String → ℕ → Option Claims
  says token t = P.decode t token settings.secret_key settings.jwt_algorithm

  truthy-eq-some : (o : Option String) (j : String) → truthy o ≡ some j → o ≡ some j
  truthy-eq-some o j h = ground arith

  -- A token whose record is revoked is let through at no time.
  check-revoked :
      (token : String) (w w' : World P) (t : RefreshToken) (u : User) (j : String) (at : ℕ)
      (c : Claims)
      → revoked_in j (P.rows w.session) ≡ true
      → says token at ≡ some c
      → truthy c.jti ≡ some j
      → check_refresh_token settings token w ≢ (ok (t, u), w')
  check-revoked token w w' t u j at c gone said named h =
      let g = check_refresh_token-eq-ok settings token w w' t u h in
      let same = L.decode_stable token _ _ at (P.clock w.readings) c g.payload said g.decoded in
      ground (arith, g.has_jti, same, g.selected, g.not_revoked, L.select_token_lem g.jti w.session)

  pub refresh-revoked :
      (token : String) (w w' : World P) (j : String) (at : ℕ) (c : Claims)
      (response : TokenResponse)
      → revoked_in j (P.rows w.session) ≡ true
      → says token at ≡ some c
      → truthy c.jti ≡ some j
      → refresh_access_pair settings token w ≢ (ok response, w')
  unfolding refresh_access_pair
  refresh-revoked token w w' j at c response gone said named h =
      let ((t, u), checked, h') = bind-eq-ok _ _ w h in
      check-revoked token w (check_refresh_token settings token w).1 t u j at c gone said named
        (pair_of_first _ checked)

  -- A refresh token that was rotated once is refused ever after, whatever transactions follow.
  pub refresh_once :
      (token : String) (w w' v v' : World P) (response again : TokenResponse)
      → refresh_access_pair settings token w ≡ (ok response, w')
      → Changes (P.rows w'.session) (P.rows v.session)
      → refresh_access_pair settings token v ≢ (ok again, v')
  unfolding refresh_access_pair
  refresh_once token w w' v v' response again h changes =
      let ((t, u), checked, rotated) = bind-eq-ok _ _ w h in
      let w₁ = (check_refresh_token settings token w).1 in
      let g = check_refresh_token-eq-ok settings token w w₁ t u (pair_of_first _ checked) in
      let found : P.select_token g.jti w₁.session ≡ some t =
        ap (P.select_token g.jti) (session-check_refresh_token settings token w) ∙ g.selected in
      refresh-revoked token v v' g.jti _ g.payload again
        (Changes-revoked_in g.jti changes (rotate-revokes t u w₁ w' g.jti response found rotated))
        g.decoded g.has_jti
