-- ===== src/OAuthService/Inactive.antt =====
-- Who signs in with a linked account, active or not.
use smart_auth_with_kubernat.Prelude.{
  ℕ, String, ◌≡◌, refl, sym, ap, ◌∙◌, Bool, true, false, some, arith, nat_eq, ==_iff, ◌||◌,
}
use smart_auth_with_kubernat.Prelude.Rows.{find?, find?_sound, find?-update}
use smart_auth_with_kubernat.Constraints.{has_id-assign}
use smart_auth_with_kubernat.Exec.{ok, commit, query, ◌>>=◌}
use smart_auth_with_kubernat.Models.{
  User, OAuthAccount, Assignment, full_name, avatar_url, email_verified, assign, assignment_fits,
}
use smart_auth_with_kubernat.OAuthService.Accounts.{sign_in_linked, get_or_create_oauth_user}
use smart_auth_with_kubernat.OAuthService.Providers.{OAuthIdentity}
use smart_auth_with_kubernat.Platform.{Platform, IsDocumented, World}
use smart_auth_with_kubernat.Platform.Database.{has_id}

-- An assignment keeps who the user is, and whether it is active.
id-assign : (t : ℕ) (a : Assignment) (u : User) → (assign t a u).id ≡ u.id
id-assign t (full_name v) u = ground arith
id-assign t _ u = ground arith

is_active-assign : (t : ℕ) (a : Assignment) (u : User) → (assign t a u).is_active ≡ u.is_active
is_active-assign t (full_name v) u = ground arith
is_active-assign t _ u = ground arith

module _ {P : Platform} (L : IsDocumented P) where
  get_user-assign_user :
      (i : ℕ) (a : Assignment) (s : P.Session) (u : User)
      → P.get_user i s ≡ some u
      → P.get_user i (P.assign_user i a s) ≡ some (assign (P.server_now s) a u)
  get_user-assign_user i a s u found =
      let here = sym (L.get_user_lem i s) ∙ found in
      let is_own = find?_sound (has_id i) (P.rows s).users u here in
      rw
        (
          L.get_user_lem i (P.assign_user i a s),
          L.rows-assign_user i a s,
          find?-update (has_id i) (has_id i) (assign (P.server_now s) a) (P.rows s).users
              (has_id-assign i (P.server_now s) a),
          here,
          is_own,
        )
        refl

  module _ (identity : OAuthIdentity) (u : User) (s : P.Session) where
    abbrev now_verified : Bool
    now_verified = u.email_verified || identity.email_verified

    -- the session after the three assignments
    abbrev named : P.Session
    named = P.assign_user u.id (full_name identity.full_name) s

    abbrev pictured : P.Session
    pictured = P.assign_user u.id (avatar_url identity.avatar_url) named

    abbrev brought_up : P.Session
    brought_up = P.assign_user u.id (email_verified now_verified) pictured

    -- the user's row after them
    abbrev updated : User
    updated = assign (P.server_now pictured) (email_verified now_verified) (
        assign (P.server_now named) (avatar_url identity.avatar_url)
          (assign (P.server_now s) (full_name identity.full_name) u))

    get_user-brought_up :
        P.get_user u.id s ≡ some u → P.get_user u.id (P.commit brought_up) ≡ some updated
    get_user-brought_up found =
        L.get_user_lem u.id (P.commit brought_up)
        ∙ ap (λ r. find? (has_id u.id) r.users) (L.rows-commit brought_up)
        ∙ sym (L.get_user_lem u.id brought_up)
        ∙ get_user-assign_user u.id _ pictured _
            (get_user-assign_user u.id _ named _ (get_user-assign_user u.id _ s u found))

    updated-same : (updated.id ≡ u.id) × (updated.is_active ≡ u.is_active)
    updated-same = (
      id-assign _ (email_verified now_verified) _
          ∙ id-assign _ (avatar_url identity.avatar_url) _
          ∙ id-assign _ (full_name identity.full_name) u,
      is_active-assign _ (email_verified now_verified) _
          ∙ is_active-assign _ (avatar_url identity.avatar_url) _
          ∙ is_active-assign _ (full_name identity.full_name) u,
    )

    accepted :
        P.rejects s ≡ false
        → assignment_fits (full_name identity.full_name) ≡ true
        → assignment_fits (avatar_url identity.avatar_url) ≡ true
        → P.rejects brought_up ≡ false
    unfolding assignment_fits
    accepted clean name_fits picture_fits = ground (
      arith,
      L.rejects-assign_user u.id (email_verified now_verified) pictured,
      L.rejects-assign_user u.id (avatar_url identity.avatar_url) named,
      L.rejects-assign_user u.id (full_name identity.full_name) s,
    )

  sign_in_linked_lem :
      (identity : OAuthIdentity) (a : OAuthAccount) (u : User) (w : World P)
      → P.get_user a.user_id w.session ≡ some u
      → P.get_user u.id w.session ≡ some u
      → P.rejects (brought_up identity u w.session) ≡ false
      → sign_in_linked identity a w ≡ (
        ok (updated identity u w.session),
        record w { session = P.commit (brought_up identity u w.session) },
      )
  unfolding sign_in_linked commit ◌>>=◌
  sign_in_linked_lem identity a u w found own clean =
      rw (found, clean, get_user-brought_up identity u w.session own) refl

  -- Who signs in with a linked account is let in though the user is not active: where the account and
  -- its user are there, nothing that is pending is refused, and the identity's name and picture fit
  -- their columns, the sign-in returns that user, with the account's id and still not active.
  pub inactive_signs_in :
      (provider : String) (identity : OAuthIdentity) (a : OAuthAccount) (u : User) (w : World P)
      → P.select_account provider identity.provider_user_id w.session ≡ some a
      → P.get_user a.user_id w.session ≡ some u
      → P.rejects w.session ≡ false
      → assignment_fits (full_name identity.full_name) ≡ true
      → assignment_fits (avatar_url identity.avatar_url) ≡ true
      → u.is_active ≡ false
      → (signed_in : User) × (w' : World P) × (get_or_create_oauth_user provider identity w
          ≡ (ok signed_in, w'))
        × (signed_in.id ≡ a.user_id)
        × (signed_in.is_active ≡ false)
  unfolding get_or_create_oauth_user query ◌>>=◌
  inactive_signs_in provider identity a u w linked found clean name_fits picture_fits inactive =
      let s = w.session in
      let own : u.id ≡ a.user_id = (==_iff u.id a.user_id).0 (
        find?_sound (has_id a.user_id) (P.rows s).users u
          (sym (L.get_user_lem a.user_id s) ∙ found)) in
      let (same, still) = updated-same identity u s in
      (
        updated identity u s,
        record w { session = P.commit (brought_up identity u s) },
        rw linked (
            sign_in_linked_lem identity a u w found (ap (λ i. P.get_user i s) own ∙ found)
              (accepted identity u s clean name_fits picture_fits)),
        same ∙ own,
        still ∙ inactive,
      )
