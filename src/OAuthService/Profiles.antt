-- ===== src/OAuthService/Profiles.antt =====
-- What the providers' answers say of who signs in.
use Prim.Native.String.{◌++◌}
use smart_auth_with_kubernat.Prelude.{
  String, Bool, false, Option, none, some, ◌==◌, string_eq, if◌then◌else◌,
}
use smart_auth_with_kubernat.Prelude.Texts.{lower, before}
use smart_auth_with_kubernat.Exec.{Result, ok, err, exception}
use smart_auth_with_kubernat.OAuthService.Providers.{OAuthIdentity}
use smart_auth_with_kubernat.Platform.Http.{
  Json, null, text, array, object, Items, nil, cons, end, member, truth, member?,
}

infixl 10 ◌>>=◌
abbrev pub ◌>>=◌ : {Value Answer : Type 0} → Result Value → (Value → Result Answer) → Result Answer
reading >>= rest = elim reading [ err e ↦ err e | ok v ↦ rest v ]

-- `json[k]`
abbrev pub item : String → Json → Result Json
item k (object m) = elim (member? k m) [ none ↦ err (exception "KeyError") | some v ↦ ok v ]
item k _ = err (exception "TypeError")

-- `json.get(k)`: no value is `None`
abbrev pub get_item : String → Json → Result Json
get_item k (object m) = elim (member? k m) [ none ↦ ok null | some v ↦ ok v ]
get_item k _ = err (exception "AttributeError")

-- a value that is used as a text: `.lower()` and `.split()` want one, and so do the columns that the
-- others are written to
abbrev pub as_text : Json → Result String
as_text (text s) = ok s
as_text _ = err (exception "AttributeError")

-- the picture, which may be missing
abbrev pub optional_text : Json → Result (Option String)
optional_text null = ok none
optional_text (text s) = ok (some s)
optional_text _ = err (exception "DataError")

-- `a or b`, for a text
abbrev pub or_text : Json → String → Result String
or_text v otherwise = if truth v then as_text v else ok otherwise

-- `a or b or c`, for a text
abbrev pub first_text : Json → Json → String → Result String
first_text v w otherwise = if truth v then as_text v else or_text w otherwise

-- the profile as `_fetch_google_identity` reads it
unfoldable pub google_identity : Json → Result OAuthIdentity
google_identity profile = do
  sub ← item "sub" profile
  provider_user_id ← as_text sub
  address ← item "email" profile
  email ← as_text address
  name ← get_item "name" profile
  full_name ← or_text name (before b'@' email)
  picture ← get_item "picture" profile
  avatar_url ← optional_text picture
  verified ← get_item "email_verified" profile
  ok (record {
    provider_user_id = provider_user_id;
    email = lower email;
    full_name = full_name;
    avatar_url = avatar_url;
    email_verified = truth verified;
  })

-- `next((item for item in emails if item.get("primary")), None)`: the search stops at the first that
-- is found, or raises at an item that has no `get`.
unfoldable pub primary_of : Items → Result (Option Json)
primary_of nil = ok none
primary_of (cons v l) =
    let later = primary_of l in
    get_item "primary" v >>= λ p. (if truth p then ok (some v) else later)

-- the items that a loop over a value runs through
abbrev pub items_of : Json → Result Items
items_of (array l) = ok l
items_of (object end) = ok nil
items_of (object (member k v m)) = err (exception "AttributeError")
items_of (text s) = if s == "" then ok nil else err (exception "AttributeError")
items_of _ = err (exception "TypeError")

-- `(primary_email or emails[0])["email"].lower() if emails else f"{profile['id']}@..."`
abbrev pub address_of : (Json → String) → Json → Items → Option Json → Result String
address_of str profile nil primary = do
  id ← item "id" profile
  ok (str id ++ "@users.noreply.github.com")
address_of str profile (cons first l) none = do
  address ← item "email" first
  email ← as_text address
  ok (lower email)
address_of str profile (cons first l) (some primary) = do
  address ← item "email" primary
  email ← as_text address
  ok (lower email)

-- `bool((primary_email or {}).get("verified", False))`
abbrev pub is_verified : Option Json → Result Bool
is_verified none = ok false
is_verified (some primary) = do verified ← get_item "verified" primary; ok (truth verified)

-- the profile and the addresses as `_fetch_github_identity` reads them
unfoldable pub github_identity : (Json → String) → Json → Json → Result OAuthIdentity
github_identity str profile emails = do
  l ← items_of emails
  primary ← primary_of l
  email ← address_of str profile l primary
  verified ← is_verified primary
  id ← item "id" profile
  name ← get_item "name" profile
  login ← get_item "login" profile
  full_name ← first_text name login (before b'@' email)
  picture ← get_item "avatar_url" profile
  avatar_url ← optional_text picture
  ok (record {
    provider_user_id = str id;
    email = email;
    full_name = full_name;
    avatar_url = avatar_url;
    email_verified = verified;
  })
