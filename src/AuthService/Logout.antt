-- ===== src/AuthService/Logout.antt =====
-- A refresh token that was logged out is refused ever after.
use smart_auth_with_kubernat.Prelude.{
  ap, ℕ, ◌+◌, String, ◌≡◌, ◌≢◌, sym, ◌∙◌, true, Option, none, some, arith, truthy,
}
use smart_auth_with_kubernat.AuthService.{
  find_refresh_record, logout_refresh_token, refresh_access_pair, revoke_found,
}
use smart_auth_with_kubernat.AuthService.Check.{decode_token-eq-ok, world-decode_token}
use smart_auth_with_kubernat.AuthService.Rotation.{
  after_revoking, revoked_in, after_revoking-revoked_in, Changes-revoked_in, refresh-revoked,
}
use smart_auth_with_kubernat.Config.{Settings}
use smart_auth_with_kubernat.Constraints.{Changes}
use smart_auth_with_kubernat.Exec.{ok, commit, now, ◌>>=◌}
use smart_auth_with_kubernat.Exec.Inversion.{
  bind_assoc, bind-eq-ok, or_raise-bind-eq-ok, query-bind,
}
use smart_auth_with_kubernat.Models.{RefreshToken, TokenResponse}
use smart_auth_with_kubernat.Platform.{Platform, IsDocumented, World}
use smart_auth_with_kubernat.Platform.Libraries.{Claims}

module _ {P : Platform} (L : IsDocumented P) where
  -- A record that is found is revoked.
  found-revoked_in :
      (found : Option RefreshToken) (t : RefreshToken) (j : String) (w w' : World P)
      → revoke_found found w ≡ (ok tt, w')
      → found ≡ some t
      → P.select_token j w.session ≡ some t
      → revoked_in j (P.rows w'.session) ≡ true
  unfolding commit now ◌>>=◌
  found-revoked_in none t j w w' h there selected = cc
  found-revoked_in (some s) t j w w' h there selected =
      let is_after : w' ≡ after_revoking P s w = ground arith in
      rw is_after (after_revoking-revoked_in L s w j (selected ∙ sym there))

module _ {P : Platform} (L : IsDocumented P) (settings : Settings) where
  -- Where the logout of a token returns, and the token's record is there, the token is refused ever
  -- after, whatever transactions change the tables in between.
  pub logout-refresh :
      (token j : String) (at : ℕ) (c : Claims) (t : RefreshToken) (w w' v v' : World P)
      (again : TokenResponse)
      → P.decode at token settings.secret_key settings.jwt_algorithm ≡ some c
      → truthy c.jti ≡ some j
      → P.select_token j w.session ≡ some t
      → logout_refresh_token settings token w ≡ (ok tt, w')
      → Changes (P.rows w'.session) (P.rows v.session)
      → refresh_access_pair settings token v ≢ (ok again, v')
  unfolding logout_refresh_token find_refresh_record
  logout-refresh token j at c t w w' v v' again said named there h changes =
      let (payload, read, h₁) = bind-eq-ok _ _ w (rw bind_assoc at h) in
      let (decoded, _) = decode_token-eq-ok settings token "refresh" w read in
      let same = L.decode_stable token _ _ at (P.clock w.readings) c payload said decoded in
      let (jti, set, h₂) =
        or_raise-bind-eq-ok _ _ _ _ (rw bind_assoc at (rw world-decode_token at h₁)) in
      let is_jti : jti ≡ j = cc in
      let gone =
        found-revoked_in L _ t j (record w { readings = w.readings + 1 }) w' (rw query-bind at h₂)
          (ap (λ k. P.select_token k w.session) is_jti ∙ there) there in
      refresh-revoked L settings token v v' j at c again (Changes-revoked_in j changes gone) said
        named
