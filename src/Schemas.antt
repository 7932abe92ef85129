-- ===== src/Schemas.antt =====
-- app/schemas/auth.py: the bodies that Pydantic lets through.
pub mod Registration
pub mod Nul
use Prim.Native.String.{count}
use smart_auth_with_kubernat.Prelude.{ℕ, String, Bool, ◌&&◌, Option, none, some, leb, if◌then◌else◌}
use smart_auth_with_kubernat.Models.{RegisterRequest, LoginRequest}
use smart_auth_with_kubernat.Platform.Http.{Json, text, Members, member?}

-- `str`: a member that is there and a text
abbrev pub as_text : Option Json → Option String
as_text (some (text s)) = some s
as_text _ = none

abbrev pub sized_text : ℕ → ℕ → Option String → Option String
sized_text least most none = none
sized_text least most (some s) = if leb least (count s) && leb (count s) most then some s else none

-- `str = Field(min_length=least, max_length=most)`
abbrev pub sized_field : ℕ → ℕ → String → Members → Option String
sized_field least most name body = sized_text least most (as_text (member? name body))

module _ (email_str : String → Option String) where
  abbrev pub checked_email : Option String → Option String
  checked_email none = none
  checked_email (some s) = email_str s

  -- `EmailStr`
  abbrev pub email_field : String → Members → Option String
  email_field name body = checked_email (as_text (member? name body))

abbrev pub registration : Option String → Option String → Option String → Option RegisterRequest
registration (some email) (some full_name) (some password) =
    some (record { email = email; full_name = full_name; password = password })
registration _ _ _ = none

abbrev credentials : Option String → Option String → Option LoginRequest
credentials (some email) (some password) = some (record { email = email; password = password })
credentials _ _ = none

module _ (email_str : String → Option String) where
  -- `none` is the answer 422
  unfoldable pub register_request : Members → Option RegisterRequest
  register_request body =
      registration (email_field email_str "email" body) (sized_field 2 255 "full_name" body)
        (sized_field 8 128 "password" body)

  unfoldable pub login_request : Members → Option LoginRequest
  login_request body =
      credentials (email_field email_str "email" body) (sized_field 8 128 "password" body)
