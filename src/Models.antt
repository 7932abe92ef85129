-- ===== src/Models.antt =====
-- app/models/user.py and app/schemas: the rows of the three tables and the bodies of requests and
-- responses. A `UUID` is the number it stands for, a `datetime` the microseconds since the epoch.
use Prim.Native.String.{count}
use smart_auth_with_kubernat.Prelude.{
  ℕ, String, Bool, true, false, not, ◌&&◌, Option, none, some, leb, ◌==◌, string_eq, if◌then◌else◌,
}
use smart_auth_with_kubernat.Prelude.Texts.{has_nul}

pub record User : Type 0 where
  pub id : ℕ
  pub email : String
  pub full_name : String
  pub password_hash : Option String
  pub avatar_url : Option String
  pub is_active : Bool
  pub email_verified : Bool
  pub created_at : ℕ
  pub updated_at : ℕ

-- the arguments of a call `User(...)`; the columns that are not among them have defaults
pub record NewUser : Type 0 where
  pub email : String
  pub full_name : String
  pub password_hash : Option String
  pub avatar_url : Option String
  pub email_verified : Bool

-- the row of a new user, with the id that `uuid4` and the time that `func.now()` yields
abbrev pub user_row : NewUser → ℕ → ℕ → User
user_row n i t = record {
  id = i;
  email = n.email;
  full_name = n.full_name;
  password_hash = n.password_hash;
  avatar_url = n.avatar_url;
  is_active = true;
  email_verified = n.email_verified;
  created_at = t;
  updated_at = t;
}

pub record OAuthAccount : Type 0 where
  pub id : ℕ
  pub user_id : ℕ
  pub provider : String
  pub provider_user_id : String
  pub created_at : ℕ

pub record RefreshToken : Type 0 where
  pub id : ℕ
  pub user_id : ℕ
  pub jti : String
  pub expires_at : ℕ
  pub revoked_at : Option ℕ
  pub created_at : ℕ

-- The columns of a user that the services assign after its creation.
pub data Assignment : Type 0 where
  full_name : String → Assignment
  avatar_url : Option String → Assignment
  email_verified : Bool → Assignment

abbrev same_text : Option String → Option String → Bool
same_text none none = true
same_text (some s) (some t) = s == t
same_text _ _ = false

abbrev same_flag : Bool → Bool → Bool
same_flag true b = b
same_flag false b = not b

-- `user.<column> = value`, flushed at a time. An assignment that changes nothing is not written, and
-- one that does touches `updated_at`.
abbrev pub assign : ℕ → Assignment → User → User
assign t (full_name v) u =
    if v == u.full_name then u else record u { full_name = v; updated_at = t }
assign t (avatar_url v) u =
    if same_text v u.avatar_url then u else record u { avatar_url = v; updated_at = t }
assign t (email_verified v) u =
    if same_flag v u.email_verified then u else record u { email_verified = v; updated_at = t }

pub record RegisterRequest : Type 0 where
  pub email : String
  pub full_name : String
  pub password : String

pub record LoginRequest : Type 0 where
  pub email : String
  pub password : String

pub record UserRead : Type 0 where
  pub id : ℕ
  pub email : String
  pub full_name : String
  pub avatar_url : Option String
  pub is_active : Bool
  pub email_verified : Bool
  pub created_at : ℕ

-- the user as it is read, with its e-mail as `EmailStr` has it
abbrev pub read_with : User → Option String → Option UserRead
read_with u none = none
read_with u (some email) = some (record {
  id = u.id;
  email = email;
  full_name = u.full_name;
  avatar_url = u.avatar_url;
  is_active = u.is_active;
  email_verified = u.email_verified;
  created_at = u.created_at;
})

-- `UserRead.model_validate(user)`; `none` is `ValidationError`, of an e-mail that `EmailStr` refuses
abbrev pub model_validate : (String → Option String) → User → Option UserRead
model_validate email_str u = read_with u (email_str u.email)

pub record TokenResponse : Type 0 where
  pub access_token : String
  pub refresh_token : String
  pub token_type : String
  pub expires_in : ℕ
  pub user : UserRead

pub record OAuthLinkResponse : Type 0 where
  pub provider : String
  pub linked : Bool
  pub user : UserRead

-- The lengths of the `String(n)` columns; a flush of a longer text, or of one with a U+0000, is
-- refused.
abbrev pub fits : ℕ → String → Bool
fits n s = leb (count s) n && not (has_nul s)

abbrev pub fits_optional : ℕ → Option String → Bool
fits_optional n none = true
fits_optional n (some s) = fits n s

unfoldable pub user_fits : User → Bool
user_fits u =
    fits 320 u.email
    && fits 255 u.full_name
    && fits_optional 255 u.password_hash
    && fits_optional 500 u.avatar_url

unfoldable pub account_fits : OAuthAccount → Bool
account_fits a = fits 50 a.provider && fits 255 a.provider_user_id

unfoldable pub token_fits : RefreshToken → Bool
token_fits t = fits 64 t.jti

unfoldable pub assignment_fits : Assignment → Bool
assignment_fits (full_name v) = fits 255 v
assignment_fits (avatar_url v) = fits_optional 500 v
assignment_fits (email_verified v) = true
