-- ===== src/AuthService.antt =====
-- app/services/auth_service.py: registration, login, and the life of refresh tokens.
pub mod Invariant
pub mod Unreadable
pub mod Register
pub mod Check
pub mod Rotation
pub mod Logout
pub mod Issue
use smart_auth_with_kubernat.Prelude.{
  ◌-◌, ◌/◌, max, String, false, not, Option, none, some, ◌==◌, string_eq, leb, if◌then◌else◌,
  is_some, truthy,
}
use smart_auth_with_kubernat.Prelude.Texts.{lower}
use smart_auth_with_kubernat.Config.{Settings}
use smart_auth_with_kubernat.Exec.{
  Exec, Failure, http, exception, pure, skip, or_raise, raise_if, now, commit, ◌>>=◌, ◌>>◌,
}
use smart_auth_with_kubernat.Models.{
  User, RefreshToken, RegisterRequest, TokenResponse, model_validate,
}
use smart_auth_with_kubernat.Platform.{Platform}
use smart_auth_with_kubernat.Platform.Redis.{micro}
use smart_auth_with_kubernat.Repositories.{
  get_by_email, add_user, refresh, add_token, get_by_jti, get_with_user, revoke,
}
use smart_auth_with_kubernat.Security.{
  hash_password, verify_password, create_access_token, create_refresh_token, decode_token,
}

abbrev pub email_taken : Failure
email_taken = http 409 "Email is already registered"

abbrev pub bad_credentials : Failure
bad_credentials = http 401 "Invalid email or password"

abbrev pub inactive : Failure
inactive = http 403 "User account is inactive"

abbrev pub bad_payload : Failure
bad_payload = http 401 "Invalid refresh token payload"

abbrev pub revoked : Failure
revoked = http 401 "Refresh token has been revoked"

abbrev pub expired : Failure
expired = http 401 "Refresh token has expired"

abbrev pub subject_mismatch : Failure
subject_mismatch = http 401 "Refresh token subject mismatch"

abbrev pub both {ℓ κ} : {A : Type ℓ} {B : Type κ} → Option A → Option B → Option (A × B)
both none b = none
both (some a) none = none
both (some a) (some b) = some (a, b)

-- a refresh record that is there and has not been revoked
abbrev pub unrevoked : Option (RefreshToken × Option User) → Option (RefreshToken × Option User)
unrevoked none = none
unrevoked (some (t, u)) = elim t.revoked_at [ none ↦ some (t, u) | some _ ↦ none ]

module _ (P : Platform) where
  -- a user that is there and has this password
  abbrev pub with_password : String → Option User → Option User
  with_password password none = none
  with_password password (some u) =
      if verify_password P password u.password_hash then some u else none

module _ {P : Platform} where
  -- the part of `register_user` that reads
  abbrev pub check_email : String → Exec P Unit
  check_email email = do
    existing_user ← get_by_email email
    raise_if (is_some existing_user) email_taken

  -- the part that writes
  unfoldable pub insert_user : RegisterRequest → Exec P User
  insert_user payload = do
    hashed ← hash_password payload.password
    user ← add_user (record {
      email = lower payload.email;
      full_name = payload.full_name;
      password_hash = some hashed;
      avatar_url = none;
      email_verified = false;
    })
    commit
    refresh user

  unfoldable pub register_user : RegisterRequest → Exec P User
  unfolding insert_user
  register_user payload = do check_email (lower payload.email); insert_user payload

  unfoldable pub authenticate_user : String → String → Exec P User
  authenticate_user email password = do
    found ← get_by_email (lower email)
    user ← or_raise (with_password P password found) bad_credentials
    raise_if (not user.is_active) inactive
    pure user

  -- the checks of `refresh_access_pair` once the record is looked up
  unfoldable pub check_refresh_record :
      String → Option (RefreshToken × Option User) → Exec P (RefreshToken × User)
  check_refresh_record subject found = do
    (refresh_record, owner) ← or_raise (unrevoked found) revoked
    t ← now
    raise_if (leb refresh_record.expires_at t) expired
    raise_if (not (P.uuid_text refresh_record.user_id == subject)) subject_mismatch
    user ← or_raise owner (exception "AttributeError")
    raise_if (not user.is_active) inactive
    pure (refresh_record, user)

  abbrev pub revoke_now : RefreshToken → Exec P Unit
  revoke_now refresh_record = do revoked_at ← now; revoke refresh_record revoked_at; commit

  -- the rest of `logout_refresh_token`, once the record is looked up
  abbrev pub revoke_found : Option RefreshToken → Exec P Unit
  revoke_found none = skip
  revoke_found (some refresh_record) = revoke_now refresh_record

module _ {P : Platform} (settings : Settings) where
  -- `timedelta` may be negative, and `int` cuts to zero: both end as 1 here.
  unfoldable pub issue_token_pair : User → Exec P TokenResponse
  issue_token_pair user = do
    (access_token, access_expires_at) ← create_access_token settings (P.uuid_text user.id)
    (refresh_token, refresh_jti, refresh_expires_at) ←
        create_refresh_token settings (P.uuid_text user.id)
    add_token user.id refresh_jti refresh_expires_at
    commit
    t ← now
    user_read ← or_raise (model_validate P.email_str user) (exception "ValidationError")
    pure (record {
      access_token = access_token;
      refresh_token = refresh_token;
      token_type = "bearer";
      expires_in = max ((access_expires_at - t) / micro) 1;
      user = user_read;
    })

  -- the part of `refresh_access_pair` that reads: the record of the token, and its user
  unfoldable pub check_refresh_token : String → Exec P (RefreshToken × User)
  check_refresh_token refresh_token = do
    payload ← decode_token settings refresh_token "refresh"
    (jti, subject) ← or_raise (both (truthy payload.jti) (truthy payload.sub)) bad_payload
    found ← get_with_user jti
    check_refresh_record subject found

  -- the part that writes
  unfoldable pub rotate_refresh_token : RefreshToken × User → Exec P TokenResponse
  rotate_refresh_token (refresh_record, user) = do revoke_now refresh_record; issue_token_pair user

  unfoldable pub refresh_access_pair : String → Exec P TokenResponse
  refresh_access_pair refresh_token = do
    checked ← check_refresh_token refresh_token
    rotate_refresh_token checked

  -- the part of a logout that reads
  unfoldable pub find_refresh_record : String → Exec P (Option RefreshToken)
  find_refresh_record refresh_token = do
    payload ← decode_token settings refresh_token "refresh"
    jti ← or_raise (truthy payload.jti) bad_payload
    get_by_jti jti

  unfoldable pub logout_refresh_token : String → Exec P Unit
  unfolding find_refresh_record
  logout_refresh_token refresh_token = do
    refresh_record ← find_refresh_record refresh_token
    revoke_found refresh_record
