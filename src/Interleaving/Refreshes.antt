-- ===== src/Interleaving/Refreshes.antt =====
-- Two refreshes of one token whose look-ups both find it unrevoked.
use smart_auth_with_kubernat.Prelude.{
  String, ◌≡◌, refl, ◌∙◌, Bool, true, false, not, ◌||◌, Option-cases, inl, inr, some, is_some,
  arith,
}
use smart_auth_with_kubernat.Prelude.Rows.{find?}
use smart_auth_with_kubernat.AuthService.{issue_token_pair, rotate_refresh_token}
use smart_auth_with_kubernat.AuthService.Issue.{issued_record}
use smart_auth_with_kubernat.AuthService.Rotation.{
  after_revoking, revoking, revoked_in, rotate-IsSettled, rotate-revokes, rotate-eq-ok,
}
use smart_auth_with_kubernat.Config.{Settings}
use smart_auth_with_kubernat.Exec.{ok, commit, draw, now, ◌>>=◌}
use smart_auth_with_kubernat.Models.{
  User, UserRead, RefreshToken, TokenResponse, model_validate, token_fits,
}
use smart_auth_with_kubernat.Platform.{Platform, IsDocumented, World}
use smart_auth_with_kubernat.Platform.Database.{has_id, token_clashes}
use smart_auth_with_kubernat.Repositories.{add_token}
use smart_auth_with_kubernat.Security.{create_access_token, create_refresh_token}

none-rejects :
    (fits clash owned rejected : Bool)
    → fits ≡ true
    → clash ≡ false
    → owned ≡ true
    → rejected ≡ false
    → not fits || clash || not owned || rejected ≡ false
none-rejects fits clash owned rejected f c o r = ground arith

module _ {P : Platform} (settings : Settings) where
  issue-ok :
      (user : User) (w : World P)
      → P.rejects (P.add_token (issued_record settings user w) w.session) ≡ false
      → ((v : UserRead) × (model_validate P.email_str user ≡ some v))
      → (r : TokenResponse) × (w' : World P) × (issue_token_pair settings user w ≡ (ok r, w'))
  unfolding issue_token_pair create_access_token create_refresh_token add_token commit now draw
      ◌>>=◌
  issue-ok user w accepted (v, valid) = rw (accepted, valid) (_, _, refl)

  -- A user for whom a pair was issued can be read.
  issue-valid :
      (user : User) (w w' : World P) (r : TokenResponse)
      → issue_token_pair settings user w ≡ (ok r, w')
      → (v : UserRead) × (model_validate P.email_str user ≡ some v)
  unfolding issue_token_pair create_access_token create_refresh_token add_token commit now draw
      ◌>>=◌
  issue-valid user w w' r h = elim (Option-cases (P.email_str user.email)) [
    | inl refused ↦ absurd (ground (arith, refused))
    | inr (email, valid) ↦ rw valid (_, refl)
  ]

  rotate-issue :
      (t : RefreshToken) (u : User) (w : World P)
      → P.rejects (revoking P t w) ≡ false
      → rotate_refresh_token settings (t, u) w ≡ issue_token_pair settings u (after_revoking P t w)
  unfolding rotate_refresh_token commit now ◌>>=◌
  rotate-issue t u w accepted = rw accepted

module _ {P : Platform} (L : IsDocumented P) (settings : Settings) where
  -- The rotation of a token that was checked succeeds whatever has become of its record since, be it
  -- revoked, as long as its user is there, and the new record fits, is new, and meets nothing that the
  -- flush refuses.
  rotation_unchecked :
      (t : RefreshToken) (u : User) (w : World P)
      → let record' = issued_record settings u (after_revoking P t w) in
        let rows = P.rows (after_revoking P t w).session in
        P.rejects w.session ≡ false
        → token_fits record' ≡ true
        → is_some (find? (token_clashes record') rows.tokens) ≡ false
        → is_some (find? (has_id u.id) rows.users) ≡ true
        → ((v : UserRead) × (model_validate P.email_str u ≡ some v))
        → (r : TokenResponse) × (w' : World P) × (rotate_refresh_token settings (t, u) w
            ≡ (ok r, w'))
  rotation_unchecked t u w quiet fits new there valid =
      let accepted : P.rejects (revoking P t w) ≡ false =
        L.rejects-assign_revoked_at t.id (P.clock w.readings) w.session ∙ quiet in
      let v = after_revoking P t w in
      let record' = issued_record settings u v in
      let (r, w', issued) =
        issue-ok settings u v
          (L.rejects-add_token record' v.session
            ∙ none-rejects _ _ _ _ fits new there (L.rejects-commit (revoking P t w) ∙ accepted))
          valid in
      (r, w', rotate-issue settings t u w accepted ∙ issued)

  -- Two refreshes that have found the same record unrevoked are both answered: after the rotation of
  -- the first its record is revoked, and the rotation of the second still returns a token pair, as
  -- long as the user is there, and the new record fits and is new.
  pub second_rotation :
      (t : RefreshToken) (u : User) (j : String) (w w' : World P) (first : TokenResponse)
      → P.select_token j w.session ≡ some t
      → rotate_refresh_token settings (t, u) w ≡ (ok first, w')
      → let record' = issued_record settings u (after_revoking P t w') in
        let rows = P.rows (after_revoking P t w').session in
        token_fits record' ≡ true
        → is_some (find? (token_clashes record') rows.tokens) ≡ false
        → is_some (find? (has_id u.id) rows.users) ≡ true
        → (revoked_in j (P.rows w'.session) ≡ true)
          × ((second : TokenResponse) × (v : World P) × (rotate_refresh_token settings (t, u) w'
                ≡ (ok second, v)))
  second_rotation t u j w w' first found h fits new there = (
    rotate-revokes L settings t u w w' j first found h,
    rotation_unchecked t u w' (rotate-IsSettled L settings t u w w' first h).accepted fits new there
        (issue-valid settings u _ w' first (rotate-eq-ok settings t u w w' first h).1),
  )
