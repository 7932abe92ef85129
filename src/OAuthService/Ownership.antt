-- ===== src/OAuthService/Ownership.antt =====
-- An account at a provider belongs to one local user for good: who has linked it or signed up with
-- it is who signs in with it.
use smart_auth_with_kubernat.Prelude.{
  subst, ℕ, String, ◌≡◌, refl, ◌∙◌, sym, ap, Option, none, some, false, arith, Option-cases, nat_eq,
  string_eq, ==_iff, ==_refl,
}
use smart_auth_with_kubernat.Prelude.Rows.{find?_sound}
use smart_auth_with_kubernat.Constraints.{Changes}
use smart_auth_with_kubernat.Exec.{ok, commit, draw, skip, modify, ◌>>=◌, ◌>>◌}
use smart_auth_with_kubernat.Exec.Inversion.{
  bind-eq-ok, or_raise-bind-eq-ok, query-bind, raise_if-bind-eq-ok, pure-eq-ok, pure-eq-world,
  pair_of_first,
}
use smart_auth_with_kubernat.Models.{User, OAuthAccount, Assignment, avatar_url}
use smart_auth_with_kubernat.OAuthService.{
  OAuthIdentity, sign_in_linked, sign_up_identity, sign_in_or_up, get_or_create_oauth_user,
  link_writes, fill_avatar, add_missing, other_owner, link_oauth_account_to_user, check_new_email,
  insert_identity, find_link_target,
}
use smart_auth_with_kubernat.Platform.{Platform, IsDocumented, World}
use smart_auth_with_kubernat.Platform.Database.{has_id}
use smart_auth_with_kubernat.Repositories.{refresh, add_account, set_user}
use smart_auth_with_kubernat.OAuthService.Owners.{owner_of, owner_in, Changes-owner_in}

module _ {P : Platform} (L : IsDocumented P) where
  id-get_user : (i : ℕ) (s : P.Session) (u : User) → P.get_user i s ≡ some u → u.id ≡ i
  id-get_user i s u h =
      (==_iff u.id i).0 (find?_sound (has_id i) _ u (sym (L.get_user_lem i s) ∙ h))

  rows-commit-ok :
      (w : World P) (a : Unit {0})
      → (commit {P = P} w).0 ≡ ok a
      → P.rows (commit {P = P} w).1.session ≡ P.rows w.session
  unfolding commit
  rows-commit-ok w a h = ground (arith, L.rows-commit w.session)

  id-refresh :
      (user u : User) (w w' : World P) → refresh user w ≡ (ok u, w') → (u.id ≡ user.id) × (w' ≡ w)
  unfolding ◌>>=◌
  id-refresh user u w w' h =
      ground (arith, Option-cases (P.get_user user.id w.session), id-get_user user.id w.session u)

  owner_in-set_user :
      (p i : String) (user : User) (a : Assignment) (w : World P)
      → owner_in p i (P.rows (set_user {P = P} user a w).1.session)
        ≡ owner_in p i (P.rows w.session)
  unfolding modify
  owner_in-set_user p i user a w = rw (L.rows-assign_user user.id a w.session) refl

  owner_in-fill_avatar :
      (p i : String) (identity : OAuthIdentity) (user : User) (w : World P)
      → owner_in p i (P.rows (fill_avatar {P = P} identity user w).1.session)
        ≡ owner_in p i (P.rows w.session)
  unfolding modify skip
  owner_in-fill_avatar p i identity user w =
      ground (arith, L.rows-assign_user user.id (avatar_url identity.avatar_url) w.session)

  -- A new account belongs to its user.
  owner_in-add_account :
      (p i : String) (id : ℕ) (w : World P)
      → owner_in p i (P.rows (add_account {P = P} id p i w).1.session) ≡ some id
  unfolding add_account draw ◌>>=◌
  owner_in-add_account p i id w =
      let a : OAuthAccount = record {
        id = P.uuid4 w.draws;
        user_id = id;
        provider = p;
        provider_user_id = i;
        created_at = P.server_now w.session;
      } in
      rw (L.rows-add_account a w.session) (ground (arith, ==_refl p, ==_refl i))

  owner_in-add_missing :
      (p : String) (identity : OAuthIdentity) (user : User) (o : Option OAuthAccount) (w : World P)
      → owner_of o ≡ owner_in p identity.provider_user_id (P.rows w.session)
      → other_owner user.id o ≡ false
      → owner_in p identity.provider_user_id
          (P.rows (add_missing {P = P} p identity user o w).1.session)
        ≡ some user.id
  unfolding skip
  owner_in-add_missing p identity user none w selected mine =
      owner_in-add_account p identity.provider_user_id user.id w
  owner_in-add_missing p identity user (some a) w selected mine =
      sym selected ∙ ap some (ground (arith, ==_iff a.user_id user.id))

  -- A commit and a refresh that return the user keep who owns an account.
  owner_in-saved :
      (p i : String) (user u : User) (w w' : World P)
      → (commit >> refresh user) w ≡ (ok u, w')
      → owner_in p i (P.rows w.session) ≡ some user.id
      → owner_in p i (P.rows w'.session) ≡ some u.id
  owner_in-saved p i user u w w' h owned =
      let (a, done, h₁) = bind-eq-ok commit (λ _. refresh user) w h in
      let (same, unchanged) = id-refresh user u _ w' h₁ in
      rw (unchanged, same, rows-commit-ok w a done) owned

  sign_in_linked-eq-ok :
      (p i : String) (identity : OAuthIdentity) (a : OAuthAccount) (u : User) (w w' : World P)
      → sign_in_linked identity a w ≡ (ok u, w')
      → owner_in p i (P.rows w.session) ≡ some a.user_id
      → (u.id ≡ a.user_id) × (owner_in p i (P.rows w'.session) ≡ some u.id)
  unfolding sign_in_linked
  sign_in_linked-eq-ok p i identity a u w w' h owned =
      let (user, found, h₁) = or_raise-bind-eq-ok _ _ _ w (rw query-bind at h) in
      let is_owner = id-get_user a.user_id w.session user found in
      let (_, _, h₂) = bind-eq-ok _ _ w h₁ in
      let (_, _, h₃) = bind-eq-ok _ _ _ h₂ in
      let (_, _, h₄) = bind-eq-ok _ _ _ h₃ in
      let saved = owner_in-saved p i user u _ w' h₄ (
        owner_in-set_user p i user _ _
        ∙ owner_in-set_user p i user _ _
        ∙ owner_in-set_user p i user _ w
        ∙ owned
        ∙ ap some (sym is_owner)) in
      let (_, _, h₅) = bind-eq-ok commit _ _ h₄ in ((id-refresh user u _ w' h₅).0 ∙ is_owner, saved)

  sign_up_identity-eq-ok :
      (p : String) (identity : OAuthIdentity) (u : User) (w w' : World P)
      → sign_up_identity p identity w ≡ (ok u, w')
      → owner_in p identity.provider_user_id (P.rows w'.session) ≡ some u.id
  unfolding sign_up_identity insert_identity
  sign_up_identity-eq-ok p identity u w w' h =
      let (_, _, h₁) = bind-eq-ok (check_new_email identity) _ w h in
      let (user, _, h₂) = bind-eq-ok _ _ _ h₁ in
      let (_, _, h₃) = bind-eq-ok _ _ _ h₂ in
      let (_, _, h₄) = bind-eq-ok _ _ _ h₃ in
      owner_in-saved p identity.provider_user_id user u _ w' h₄
        (owner_in-add_account p identity.provider_user_id user.id _)

  sign_in_or_up-eq-ok :
      (p : String) (identity : OAuthIdentity) (o : Option OAuthAccount) (u : User) (w w' : World P)
      → owner_of o ≡ owner_in p identity.provider_user_id (P.rows w.session)
      → sign_in_or_up p identity o w ≡ (ok u, w')
      → (owner_in p identity.provider_user_id (P.rows w'.session) ≡ some u.id)
        × ((i : ℕ) → owner_of o ≡ some i → u.id ≡ i)
  sign_in_or_up-eq-ok p identity none u w w' selected h =
      (sign_up_identity-eq-ok p identity u w w' h, λ i e. absurd cc)
  sign_in_or_up-eq-ok p identity (some a) u w w' selected h =
      let (is_owner, saved) =
        sign_in_linked-eq-ok p identity.provider_user_id identity a u w w' h (sym selected) in
      (saved, λ i e. is_owner ∙ cc)

  -- Who signs in with an account is its owner from then on, and was before if it had one.
  sign_in-eq-ok :
      (p : String) (identity : OAuthIdentity) (u : User) (w w' : World P)
      → get_or_create_oauth_user p identity w ≡ (ok u, w')
      → (owner_in p identity.provider_user_id (P.rows w'.session) ≡ some u.id)
        × ((i : ℕ) → owner_in p identity.provider_user_id (P.rows w.session) ≡ some i → u.id ≡ i)
  unfolding get_or_create_oauth_user
  sign_in-eq-ok p identity u w w' h =
      let selected = ap owner_of (L.select_account_lem p identity.provider_user_id w.session) in
      let (saved, was) = sign_in_or_up-eq-ok p identity _ u w w' selected (rw query-bind at h) in
      (saved, λ i owned. was i (selected ∙ owned))

  link_writes-eq-ok :
      (p : String) (identity : OAuthIdentity) (user u : User) (o : Option OAuthAccount)
      (w w' : World P)
      → link_writes p identity user o w ≡ (ok u, w')
      → owner_of o ≡ owner_in p identity.provider_user_id (P.rows w.session)
      → other_owner user.id o ≡ false
      → owner_in p identity.provider_user_id (P.rows w'.session) ≡ some u.id
  unfolding link_writes
  link_writes-eq-ok p identity user u o w w' h selected owned =
      let i = identity.provider_user_id in
      let (_, _, h₁) = bind-eq-ok _ _ w h in
      let (_, _, h₂) = bind-eq-ok _ _ _ h₁ in
      let (_, _, h₃) = bind-eq-ok _ _ _ h₂ in
      owner_in-saved p i user u _ w' h₃ (
        owner_in-set_user p i user _ _
        ∙ owner_in-fill_avatar p i identity user _
        ∙ owner_in-add_missing p identity user o w selected owned)

  find_link_target-eq-ok :
      (p : String) (identity : OAuthIdentity) (target : Option String) (user : User)
      (o : Option OAuthAccount) (w w' : World P)
      → find_link_target p identity target w ≡ (ok (user, o), w')
      → (o ≡ P.select_account p identity.provider_user_id w.session)
        × (other_owner user.id o ≡ false)
        × (w ≡ w')
  unfolding find_link_target
  find_link_target-eq-ok p identity target user o w w' h =
      let (text, _, h₁) = or_raise-bind-eq-ok _ _ _ w h in
      let (id, _, h₂) = or_raise-bind-eq-ok _ _ _ w h₁ in
      let (found, _, h₃) = or_raise-bind-eq-ok _ _ _ w (rw query-bind at h₂) in
      let (_, h₄) = raise_if-bind-eq-ok _ _ _ w (rw query-bind at h₃) in
      let (mine, h₅) = raise_if-bind-eq-ok _ _ _ w (rw query-bind at h₄) in
      let same = pure-eq-ok _ w h₅ in
      (
        ap (λ (x : User × Option OAuthAccount). x.1) (sym same),
        subst (λ (x : User × Option OAuthAccount). other_owner x.0.id x.1 ≡ false) same mine,
        pure-eq-world _ w h₅,
      )

  link-eq-ok :
      (p : String) (identity : OAuthIdentity) (target : Option String) (u : User) (w w' : World P)
      → link_oauth_account_to_user p identity target w ≡ (ok u, w')
      → owner_in p identity.provider_user_id (P.rows w'.session) ≡ some u.id
  unfolding link_oauth_account_to_user
  link-eq-ok p identity target u w w' h =
      let ((user, o), read, h₁) = bind-eq-ok _ _ w h in
      let (selected, mine, same) =
        find_link_target-eq-ok p identity target user o w _ (pair_of_first _ read) in
      link_writes-eq-ok p identity user u o _ w' h₁
        (ap owner_of (selected ∙ L.select_account_lem p identity.provider_user_id w.session)
          ∙ ap (λ (v : World P). owner_in p identity.provider_user_id (P.rows v.session)) same)
        mine

  -- Who has linked an account at a provider is who signs in with it, whatever transactions change
  -- the tables in between.
  pub link-sign_in :
      (p : String) (identity later : OAuthIdentity) (target : Option String) (u u' : User)
      (w w' v v' : World P)
      → later.provider_user_id ≡ identity.provider_user_id
      → link_oauth_account_to_user p identity target w ≡ (ok u, w')
      → Changes (P.rows w'.session) (P.rows v.session)
      → get_or_create_oauth_user p later v ≡ (ok u', v')
      → u'.id ≡ u.id
  link-sign_in p identity later target u u' w w' v v' same linked changes h =
      (sign_in-eq-ok p later u' v v' h).1 u.id (
        rw same (
          Changes-owner_in p identity.provider_user_id u.id changes
            (link-eq-ok p identity target u w w' linked)))

  -- Two sign-ins with one account at a provider are of one user, whatever transactions change the
  -- tables in between.
  pub sign_in-sign_in :
      (p : String) (identity later : OAuthIdentity) (u u' : User) (w w' v v' : World P)
      → later.provider_user_id ≡ identity.provider_user_id
      → get_or_create_oauth_user p identity w ≡ (ok u, w')
      → Changes (P.rows w'.session) (P.rows v.session)
      → get_or_create_oauth_user p later v ≡ (ok u', v')
      → u'.id ≡ u.id
  sign_in-sign_in p identity later u u' w w' v v' same signed changes h =
      (sign_in-eq-ok p later u' v v' h).1 u.id (
        rw same (
          Changes-owner_in p identity.provider_user_id u.id changes
            (sign_in-eq-ok p identity u w w' signed).0))
