-- ===== src/Deps.antt =====
-- app/api/deps.py and app/db/session.py: the session of a request and its user.
pub mod Current
use smart_auth_with_kubernat.Prelude.{String, Option, truthy}
use smart_auth_with_kubernat.Config.{Settings}
use smart_auth_with_kubernat.Exec.{Exec, Failure, Result, http, exception, or_raise, query, ◌>>=◌}
use smart_auth_with_kubernat.Models.{User}
use smart_auth_with_kubernat.Platform.{Platform, World}
use smart_auth_with_kubernat.Security.{decode_token}

abbrev pub no_credentials : Failure
no_credentials = http 401 "Authentication required"

abbrev pub bad_subject : Failure
bad_subject = http 401 "Invalid token subject"

abbrev pub no_user : Failure
no_user = http 401 "User not found"

module _ {P : Platform} {A : Type 0} where
  -- what closing the session does
  abbrev closed : Result A × World P → Result A × World P
  closed (r, w) = (r, record w { session = P.rollback w.session })

  -- `async with SessionLocal() as session`: what was not committed is rolled back.
  unfoldable pub in_session : Exec P A → Exec P A
  in_session m w = closed (m w)

module _ {P : Platform} (settings : Settings) where
  unfoldable pub get_current_user : Option String → Exec P User
  get_current_user credentials = do
    token ← or_raise credentials no_credentials
    payload ← decode_token settings token "access"
    subject ← or_raise (truthy payload.sub) bad_subject
    i ← or_raise (P.parse_uuid subject) (exception "ValueError")
    user ← query (P.select_active_user i)
    or_raise user no_user
