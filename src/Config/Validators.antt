-- ===== src/Config/Validators.antt =====
-- app/core/config.py: the validators, and the settings that they make of the values that were read.
use Prim.Native.String.{◌++◌, count}
use smart_auth_with_kubernat.Prelude.{
  String, Bool, true, false, not, ◌&&◌, ◌||◌, Option, none, some, List, [], ◌∷◌, ◌⊎◌, inl, inr,
  ◌==◌, string_eq, ltb, if◌then◌else◌,
}
use smart_auth_with_kubernat.Prelude.Texts.{lower, strip}
use smart_auth_with_kubernat.Prelude.Splits.{split, strip_end, contains}
use smart_auth_with_kubernat.Config.{Settings}
use smart_auth_with_kubernat.Exec.{Failure, Result, ok, err, exception}

-- what `urlparse` finds in an address
pub record Url : Type 0 where
  pub scheme : String
  pub netloc : String
  pub hostname : Option String

unfoldable pub stripped : List String → List String
stripped [] = []
stripped (item ∷ items) =
    let rest = stripped items in if strip item == "" then rest else strip item ∷ rest

-- a value as it was read: a text, or a list
unfoldable pub parse_csv_list : String ⊎ List String → List String
unfolding stripped
parse_csv_list (inl value) = stripped (split b',' value)
parse_csv_list (inr value) = value

unfoldable pub strip_trailing_slash : String → String
strip_trailing_slash value = strip_end b'/' value

abbrev pub or_none : String → Option String
or_none normalized = if normalized == "" then none else some normalized

unfoldable pub normalize_optional_urls : Option String → Option String
normalize_optional_urls none = none
normalize_optional_urls (some value) = or_none (strip_end b'/' (strip value))

abbrev pub value_error : String → Failure
value_error message = exception ("ValueError: " ++ message)

abbrev pub is_local : Option String → Bool
is_local none = false
is_local (some name) = name == "localhost" || name == "127.0.0.1"

abbrev pub is_empty : List String → Bool
is_empty [] = true
is_empty (x ∷ xs) = false

abbrev pub is_placeholder : String → Bool
is_placeholder key = key == "" || key == "change-me" || key == "change-this-in-production"

-- The validators of the fields. The two lists are as they were read, the other fields are those of
-- `read`.
abbrev pub normalized : Settings → String ⊎ List String → String ⊎ List String → Settings
normalized read origins cidrs = record read {
  cors_origins = parse_csv_list origins;
  trusted_proxy_cidrs = parse_csv_list cidrs;
  public_backend_url = strip_trailing_slash read.public_backend_url;
  prometheus_public_url = normalize_optional_urls read.prometheus_public_url;
  grafana_public_url = normalize_optional_urls read.grafana_public_url;
}

module _ (urlparse : String → Option Url) where
  -- the tests of the address; `none` is the ValueError of `urlparse`
  abbrev pub check_url : Option Url → Result Settings → Result Settings
  check_url none rest = err (value_error "invalid URL")
  check_url (some url) rest =
      if not (url.scheme == "https") || url.netloc == ""
      then err (value_error "PUBLIC_BACKEND_URL must be a valid HTTPS URL in production")
      else if is_local url.hostname
      then err (value_error "PUBLIC_BACKEND_URL cannot point to localhost in production")
      else rest

  unfoldable pub validate_production_configuration : Settings → Result Settings
  validate_production_configuration self =
      if not (lower self.app_env == "production")
      then ok self
      else if self.debug
      then err (value_error "DEBUG must be false when APP_ENV is production")
      else if is_placeholder self.secret_key || ltb (count self.secret_key) 64
      then err (value_error "SECRET_KEY must be a strong non-placeholder value in production")
      else check_url (urlparse self.public_backend_url) (
          if contains "@localhost" self.database_url || contains "@127.0.0.1" self.database_url
          then err (value_error "DATABASE_URL cannot point to localhost in production")
          else if self.trust_proxy_headers && is_empty self.trusted_proxy_cidrs
          then err
              (value_error "TRUSTED_PROXY_CIDRS must be set when TRUST_PROXY_HEADERS is enabled")
          else ok self)

  -- `Settings()`: the validators of the fields, and then the one of the model
  unfoldable pub load : Settings → String ⊎ List String → String ⊎ List String → Result Settings
  load read origins cidrs = validate_production_configuration (normalized read origins cidrs)
