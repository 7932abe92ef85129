-- ===== src/Exec.antt =====
-- What a coroutine of the program does: it changes the world, and returns or raises. What it wrote
-- before it raises stays written.
pub mod Ends
pub mod Inversion
pub mod Stores
use smart_auth_with_kubernat.Prelude.{ℕ, ◌+◌, String, Bool, Option, none, some, if◌then◌else◌}
use smart_auth_with_kubernat.Platform.{Platform, World}
use smart_auth_with_kubernat.Platform.Http.{HttpCall, HttpReply}
use smart_auth_with_kubernat.Platform.Libraries.{Answer, reply, refused, reply_lost}

-- `HTTPException(status_code, detail)`, the one with the seconds to wait in its detail, or any
-- other exception, which FastAPI answers with 500
pub data Failure : Type 0 where
  http : ℕ → String → Failure
  http_retry : ℕ → String → ℕ → Failure
  exception : String → Failure

pub data Result {ℓ} (A : Type ℓ) : Type ℓ where
  ok : A → Result A
  err : Failure → Result A

abbrev pub Exec : Platform → Type 0 → Type 0
Exec P A = World P → Result A × World P

module _ {P : Platform} {A : Type 0} where
  unfoldable pub pure : A → Exec P A
  pure a w = (ok a, w)

  unfoldable pub raise : Failure → Exec P A
  raise e w = (err e, w)

  unfoldable pub lift : Result A → Exec P A
  lift r w = (r, w)

  -- `raise` where a value is missing
  unfoldable pub or_raise : Option A → Failure → Exec P A
  or_raise none e w = (err e, w)
  or_raise (some a) e w = (ok a, w)

  -- a query of the session
  unfoldable pub query : (P.Session → A) → Exec P A
  query f w = (ok (f w.session), w)

module _ {P : Platform} where
  unfoldable pub skip : Exec P Unit
  skip w = (ok tt, w)

  unfoldable pub raise_if : Bool → Failure → Exec P Unit
  raise_if b e w = (if b then err e else ok tt, w)

  -- an assignment to the session's rows
  unfoldable pub modify : (P.Session → P.Session) → Exec P Unit
  modify f w = (ok tt, record w { session = f w.session })

module _ {P : Platform} {A B : Type 0} where
  abbrev pub continue : Result A × World P → (A → Exec P B) → Result B × World P
  continue (ok a, w) f = f a w
  continue (err e, w) f = (err e, w)

  infixl 10 ◌>>=◌ ◌>>◌
  -- opening this opens the actions above, which are not those of the outside
  unfoldable pub ◌>>=◌ : Exec P A → (A → Exec P B) → Exec P B
  unfolding pure raise lift or_raise query skip raise_if modify
  ◌>>=◌ m f w = continue (m w) f

  abbrev pub ◌>>◌ : Exec P A → Exec P B → Exec P B
  m >> n = m >>= λ _. n

module _ {P : Platform} where
  -- datetime.now(timezone.utc)
  unfoldable pub now : Exec P ℕ
  now w = (ok (P.clock w.readings), record w { readings = w.readings + 1 })

  -- a number that no other draw has
  unfoldable pub draw : Exec P ℕ
  draw w = (ok w.draws, record w { draws = w.draws + 1 })

  -- `await session.flush()` and `await session.commit()`; the transaction of a failed one is
  -- rolled back
  unfoldable pub flush : Exec P Unit
  flush w =
      if P.rejects w.session
      then (err (exception "DBAPIError"), record w { session = P.rollback w.session })
      else (ok tt, record w { session = P.flush w.session })

  unfoldable pub commit : Exec P Unit
  commit w =
      if P.rejects w.session
      then (err (exception "DBAPIError"), record w { session = P.rollback w.session })
      else (ok tt, record w { session = P.commit w.session })

-- the reply of `await client.post(...)`, or its exception
abbrev pub replied : Option HttpReply → Result HttpReply
replied none = err (exception "RequestError")
replied (some r) = ok r

module _ {P : Platform} where
  unfoldable pub http_call : HttpCall → Exec P HttpReply
  http_call call w = (replied (P.fetch w.readings call), record w { readings = w.readings + 1 })

module _ {P : Platform} {A : Type 0} where
  -- how a Redis command ends, by its answer
  abbrev pub answered :
      (ℕ → P.Store → A) → (ℕ → P.Store → P.Store) → World P → Answer → Result A × World P
  answered value effect w reply = (
    ok (value (P.clock w.readings) w.store),
    record w { store = effect (P.clock w.readings) w.store; readings = w.readings + 1 },
  )
  answered value effect w refused =
      (err (exception "RedisError"), record w { readings = w.readings + 1 })
  answered value effect w reply_lost = (
    err (exception "RedisError"),
    record w { store = effect (P.clock w.readings) w.store; readings = w.readings + 1 },
  )

  -- A Redis command, run at its own reading of the clock. `RedisError` says that there is no reply:
  -- the command may have been carried out.
  unfoldable pub redis_command : (ℕ → P.Store → A) → (ℕ → P.Store → P.Store) → Exec P A
  redis_command value effect w = answered value effect w (P.answer w.readings)
