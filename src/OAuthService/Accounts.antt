-- ===== src/OAuthService/Accounts.antt =====
-- Signing in with an identity of a provider, and linking it to a local account.
use smart_auth_with_kubernat.Prelude.{
  ℕ, String, Option, none, some, Bool, false, ◌&&◌, ◌||◌, ◌==◌, nat_eq, not, is_set, is_some,
  if◌then◌else◌,
}
use smart_auth_with_kubernat.Exec.{
  Exec, Failure, http, exception, pure, skip, or_raise, raise_if, flush, commit, ◌>>=◌, ◌>>◌,
}
use smart_auth_with_kubernat.Models.{User, OAuthAccount, full_name, avatar_url, email_verified}
use smart_auth_with_kubernat.OAuthService.Providers.{OAuthIdentity}
use smart_auth_with_kubernat.Platform.{Platform}
use smart_auth_with_kubernat.Repositories.{
  get_by_email, get_by_id, get_by_provider_identity, add_user, add_account, refresh, set_user,
}

abbrev pub missing_user : Failure
missing_user = http 409 "OAuth account is linked to a missing user"

abbrev pub email_exists : Failure
email_exists =
    http 409
      "An account with this email already exists. Sign in first, then use the OAuth link endpoint."

abbrev pub no_target_user : Failure
no_target_user = http 400 "OAuth link flow is missing the target user"

abbrev pub target_not_found : Failure
target_not_found = http 404 "User for OAuth linking was not found"

abbrev pub email_elsewhere : Failure
email_elsewhere = http 409 "That provider email already belongs to a different local account."

abbrev pub linked_elsewhere : Failure
linked_elsewhere = http 409 "That OAuth account is already linked elsewhere"

-- a user that is there and is another than `id`
abbrev pub other_user : ℕ → Option User → Bool
other_user id none = false
other_user id (some u) = not (u.id == id)

-- an account that is there and belongs to another user than `id`
abbrev pub other_owner : ℕ → Option OAuthAccount → Bool
other_owner id none = false
other_owner id (some a) = not (a.user_id == id)

module _ {P : Platform} where
  -- the identity has an account: its user's profile is brought up to date
  unfoldable pub sign_in_linked : OAuthIdentity → OAuthAccount → Exec P User
  sign_in_linked identity oauth_account = do
    found ← get_by_id oauth_account.user_id
    user ← or_raise found missing_user
    set_user user (full_name identity.full_name)
    set_user user (avatar_url identity.avatar_url)
    set_user user (email_verified (user.email_verified || identity.email_verified))
    commit
    refresh user

  -- the part of a sign-up that reads
  abbrev pub check_new_email : OAuthIdentity → Exec P Unit
  check_new_email identity = do
    existing_user ← get_by_email identity.email
    raise_if (is_some existing_user) email_exists

  -- the part that writes
  unfoldable pub insert_identity : String → OAuthIdentity → Exec P User
  insert_identity provider identity = do
    user ← add_user (record {
      email = identity.email;
      full_name = identity.full_name;
      password_hash = none;
      avatar_url = identity.avatar_url;
      email_verified = identity.email_verified;
    })
    flush
    add_account user.id provider identity.provider_user_id
    commit
    refresh user

  -- the identity is new: a user is created for it, unless the e-mail is taken
  unfoldable pub sign_up_identity : String → OAuthIdentity → Exec P User
  unfolding insert_identity
  sign_up_identity provider identity = do
    check_new_email identity
    insert_identity provider identity

  abbrev pub sign_in_or_up : String → OAuthIdentity → Option OAuthAccount → Exec P User
  sign_in_or_up provider identity (some oauth_account) = sign_in_linked identity oauth_account
  sign_in_or_up provider identity none = sign_up_identity provider identity

  unfoldable pub get_or_create_oauth_user : String → OAuthIdentity → Exec P User
  get_or_create_oauth_user provider identity = do
    oauth_account ← get_by_provider_identity provider identity.provider_user_id
    sign_in_or_up provider identity oauth_account

  -- `if oauth_account is None: oauth_accounts.add(...)`
  abbrev pub add_missing : String → OAuthIdentity → User → Option OAuthAccount → Exec P Unit
  add_missing provider identity user (some a) = skip
  add_missing provider identity user none = add_account user.id provider identity.provider_user_id

  -- `if not user.avatar_url and identity.avatar_url: ...`
  abbrev pub fill_avatar : OAuthIdentity → User → Exec P Unit
  fill_avatar identity user =
      if not (is_set user.avatar_url) && is_set identity.avatar_url
      then set_user user (avatar_url identity.avatar_url)
      else skip

  -- the part of `link_oauth_account_to_user` that writes
  unfoldable pub link_writes : String → OAuthIdentity → User → Option OAuthAccount → Exec P User
  link_writes provider identity user oauth_account = do
    add_missing provider identity user oauth_account
    fill_avatar identity user
    set_user user (email_verified (user.email_verified || identity.email_verified))
    commit
    refresh user

  -- the part that reads: the user to link to, and the account if it is there
  unfoldable pub find_link_target :
      String → OAuthIdentity → Option String → Exec P (User × Option OAuthAccount)
  find_link_target provider identity user_id = do
    target ← or_raise user_id no_target_user
    i ← or_raise (P.parse_uuid target) (exception "ValueError")
    found ← get_by_id i
    user ← or_raise found target_not_found
    existing_email_user ← get_by_email identity.email
    raise_if (other_user user.id existing_email_user) email_elsewhere
    oauth_account ← get_by_provider_identity provider identity.provider_user_id
    raise_if (other_owner user.id oauth_account) linked_elsewhere
    pure (user, oauth_account)

  unfoldable pub link_oauth_account_to_user : String → OAuthIdentity → Option String → Exec P User
  unfolding find_link_target
  link_oauth_account_to_user provider identity user_id = do
    (user, oauth_account) ← find_link_target provider identity user_id
    link_writes provider identity user oauth_account
