-- ===== src/Security.antt =====
-- app/core/security.py: password hashes, and the signed tokens.
use smart_auth_with_kubernat.Prelude.{
  ℕ, ◌+◌, ◌*◌, String, Bool, false, not, Option, none, some, ◌==◌, string_eq, if◌then◌else◌,
}
use smart_auth_with_kubernat.Config.{Settings}
use smart_auth_with_kubernat.Exec.{
  Exec, Failure, http, pure, or_raise, raise_if, now, draw, ◌>>=◌, ◌>>◌,
}
use smart_auth_with_kubernat.Platform.{Platform}
use smart_auth_with_kubernat.Platform.Libraries.{Payload, Claims}
use smart_auth_with_kubernat.Platform.Redis.{micro}

-- `payload.get(k) == text`
abbrev pub is_text : Option String → String → Bool
is_text none text = false
is_text (some s) text = s == text

abbrev pub minutes : ℕ → ℕ
minutes n = n * (60 * micro)

abbrev pub days : ℕ → ℕ
days n = n * (86_400 * micro)

abbrev pub invalid_token : Failure
invalid_token = http 401 "Invalid or expired token"

abbrev pub unexpected_type : Failure
unexpected_type = http 401 "Unexpected token type"

module _ {P : Platform} where
  unfoldable pub hash_password : String → Exec P String
  hash_password password = do salt ← draw; pure (P.hash salt password)

module _ (P : Platform) where
  unfoldable pub verify_password : String → Option String → Bool
  verify_password password none = false
  verify_password password (some hashed) = if hashed == "" then false else P.verify password hashed

  abbrev pub sign : Settings → Payload → String
  sign settings p = P.encode p settings.secret_key settings.jwt_algorithm

module _ {P : Platform} (settings : Settings) where
  unfoldable pub create_access_token : String → Exec P (String × ℕ)
  create_access_token subject = do
    issued ← now
    let expires_at = issued + minutes settings.access_token_expire_minutes
    iat ← now
    n ← draw
    pure (
      sign P settings (record {
        sub = subject;
        type = "access";
        exp = expires_at;
        iat = iat;
        jti = P.uuid_text (P.uuid4 n);
      }),
      expires_at,
    )

  unfoldable pub create_refresh_token : String → Exec P (String × String × ℕ)
  create_refresh_token subject = do
    n ← draw
    let jti = P.uuid_text (P.uuid4 n)
    issued ← now
    let expires_at = issued + days settings.refresh_token_expire_days
    iat ← now
    pure (
      sign P settings
          (record { sub = subject; type = "refresh"; exp = expires_at; iat = iat; jti = jti }),
      jti,
      expires_at,
    )

  -- `jwt.decode` reads the clock.
  unfoldable pub decode_token : String → String → Exec P Claims
  decode_token token expected_type = do
    t ← now
    payload ← or_raise (P.decode t token settings.secret_key settings.jwt_algorithm) invalid_token
    raise_if (not (is_text payload.type expected_type)) unexpected_type
    pure payload
