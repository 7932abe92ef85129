-- ===== src/Platform/Libraries.antt =====
-- The libraries that the services call: PyJWT, pwdlib, `uuid`, `secrets`, and the clock. What is
-- random or depends on time is read off in order: `uuid4 n` is the value of the n-th draw, `clock n`
-- the time of the n-th reading, in microseconds.
use smart_auth_with_kubernat.Prelude.{
  ℕ, ◌/◌, ◌≤◌, ◌<◌, ◌+◌, String, ◌≡◌, ◌≢◌, true, Option, none, some, Bool, List,
}
use smart_auth_with_kubernat.Platform.Http.{Json, HttpCall, HttpReply}
use smart_auth_with_kubernat.Platform.Redis.{micro}

-- the dictionaries that `security.py` signs
pub record Payload : Type 0 where
  pub sub : String
  pub type : String
  pub exp : ℕ
  pub iat : ℕ
  pub jti : String

-- what a verified token carries; any claim may be missing
pub record Claims : Type 0 where
  pub sub : Option String
  pub type : Option String
  pub jti : Option String

abbrev pub claims : Payload → Claims
claims p = record { sub = some p.sub; type = some p.type; jti = some p.jti }

-- how a Redis command ends: its reply, an error before it was carried out, or an error after
pub data Answer : Type 0 where
  reply refused reply_lost : Answer

-- a JSON object whose values are texts or null
abbrev pub JsonObject : Type 0
JsonObject = List (String × Option String)

pub record Libraries : Type 0 where
  pub clock : ℕ → ℕ
  pub answer : ℕ → Answer
  pub uuid4 : ℕ → ℕ
  pub uuid_text : ℕ → String
  pub parse_uuid : String → Option ℕ
  pub token_urlsafe : ℕ → String
  -- Argon2 with the salt of a draw
  pub hash : ℕ → String → String
  pub verify : String → String → Bool
  -- at a time, with a key and an algorithm; `none` is `InvalidTokenError`
  pub encode : Payload → String → String → String
  pub decode : ℕ → String → String → String → Option Claims
  -- `json.dumps` and `json.loads`; `none` is `JSONDecodeError`
  pub dumps : JsonObject → String
  pub loads : String → Option JsonObject
  pub urlencode : List (String × String) → String
  -- what Pydantic's `EmailStr` makes of a text; `none` is `ValidationError`
  pub email_str : String → Option String
  -- `str` of a JSON value
  pub str : Json → String
  -- the reply to a request at the n-th reading; `none` is `httpx.RequestError`
  pub fetch : ℕ → HttpCall → Option HttpReply
  -- `ip_address(text)` and `ip in ip_network(cidr, strict=False)`; `none` is `ValueError`
  pub ip_address : String → Option ℕ
  pub in_network : ℕ → String → Option Bool

pub record AreLibraries (L : Libraries) : Type 0 where
  pub clock_mono : (n : ℕ) → L.clock n ≤ L.clock (n + 1)
  pub parse-uuid_text : (i : ℕ) → L.parse_uuid (L.uuid_text i) ≡ some i
  pub uuid_text-ne-empty : (i : ℕ) → L.uuid_text i ≢ ""
  pub verify-hash : (n : ℕ) (p : String) → L.verify p (L.hash n p) ≡ true
  pub hash-ne-empty : (n : ℕ) (p : String) → L.hash n p ≢ ""
  -- `exp` and `iat` are whole seconds in the token; a token is good from `iat` until before `exp`.
  pub decode-encode :
      (p : Payload) (key alg : String) (now : ℕ)
      → p.iat / micro ≤ now / micro
      → now / micro < p.exp / micro
      → L.decode now (L.encode p key alg) key alg ≡ some (claims p)
  pub decode-encode_expired :
      (p : Payload) (key alg : String) (now : ℕ)
      → p.exp / micro ≤ now / micro
      → L.decode now (L.encode p key alg) key alg ≡ none
  pub loads-dumps : (o : JsonObject) → L.loads (L.dumps o) ≡ some o
  pub dumps-ne-empty : (o : JsonObject) → L.dumps o ≢ ""
  -- What a token says does not change with the time.
  pub decode_stable :
      (token key alg : String) (now later : ℕ) (c d : Claims)
      → L.decode now token key alg ≡ some c
      → L.decode later token key alg ≡ some d
      → c ≡ d
