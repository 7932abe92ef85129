-- ===== src/Lib.antt =====
-- Smart Auth API (app/): accounts with passwords or OAuth, access tokens, refresh tokens that rotate,
-- and a rate limit, on PostgreSQL and Redis.
--
-- A request reaches a route of app/api/v1/auth.py. Its rate limit counts the client's address in
-- Redis; then it opens a database session, finds the user of its access token where it needs one,
-- and calls a service. The services read and write through the repositories, and sign and verify
-- with core/security.py.
--
-- Which file models what:
--   Models        the rows of app/models/user.py and the bodies of app/schemas/
--   Constraints   the keys of the tables, as the model and alembic/versions declare them, and
--                 `Change`, the abstract steps that a transaction may take on the tables
--   Migrations    alembic/versions: the tables, the upgrade and the downgrade; Entries has what the
--                 columns and constraints of a table say of a row. Environment is alembic/env.py.
--   Platform      what the program runs on and is not its own code: the session of SQLAlchemy
--                 (Platform/Database), Redis (Platform/Redis), PyJWT, pwdlib, uuid, secrets, json,
--                 Pydantic's EmailStr,
--                 ipaddress and the clock (Platform/Libraries), httpx (Platform/Http),
--                 prometheus_client (Platform/Registry), structlog (Platform/Contextvars), and the
--                 operations of Alembic on PostgreSQL (Platform/Ddl) and its runner (Platform/Alembic).
--                 Each is a record of operations, with another of what its documentation promises.
--   Exec          a coroutine: it takes the world (session, keys in Redis, readings of the clock,
--                 draws of randomness) to a result and a world; an exception keeps what was
--                 written before it. Exec/Ends has the rules for what a coroutine leaves of the
--                 session, Exec/Inversion what a sequence that returned says of its first action.
--   Settled       a session between two calls: nothing is pending, and what is committed came from
--                 the tables before by `Change`s
--   Config        the settings of app/core/config.py and their validators (Config/Validators)
--   Security      app/core/security.py
--   Repositories  app/repositories/auth.py; Tables has the tables as quotients, which forget the order
--                 of their rows
--   AuthService   app/services/auth_service.py, one function per method. `refresh_access_pair` is
--                 `check_refresh_token`, its reads, then `rotate_refresh_token`, its writes.
--   OAuthService  app/services/oauth_service.py: Providers (settings and URLs), States (the `state`
--                 parameter), Profiles (what the providers' answers say), Identities (the calls of
--                 the providers), Accounts (signing in and linking)
--   RateLimiter   app/core/rate_limiter.py; each Redis command may be refused, or carried out with
--                 its reply lost
--   Deps          app/api/deps.py and app/db/session.py
--   Routes        app/api/v1/auth.py
--   Interleaving  the routes' handlers turn by turn, and requests that take their turns in any order:
--                 a turn is a run of reads, the writes up to their commit, or an exchange with a
--                 provider. Alone finds that the turns are those of Routes.
--   Metrics       app/core/metrics.py, over the registry of prometheus_client (Platform/Registry)
--   Application   app/main.py: the routes behind the middleware (Transparency), the table of the routes
--                 (Table, with app/api/v1/router.py and the pages that FastAPI adds) and which of them a request finds (Routing),
--                 and the start and the stop of the process (Lifespan)
--   Logging       app/core/logging.py
--   Middleware    app/middleware/observability.py, around any application: what it counts (Counts)
--                 and logs (Logs)
--   Schemas       the validation of the bodies of app/schemas/auth.py, and what becomes of those that
--                 it lets through
--   System        app/api/v1/system.py and app/api/v1/health.py
--   Tests         a platform in memory that meets `IsDocumented`, and the theorems at inputs on it
--
-- Numbers: times are microseconds on ℕ, which has no bound, as Python's int; a subtraction that could
-- go below 0 is one that the code cuts at 0 or 1 (`max`). Loops run over lists, so there is no fuel.
-- Lower- and upper-casing are those of ASCII.
--
-- Not modelled: the pages and CORS, which are Starlette's; a prefix of the API with braces; and what a request sees of another's writes
-- before their commit, or between two reads of one turn.
pub mod Prelude
pub mod Models
pub mod Platform
pub mod Constraints
pub mod Exec
pub mod Settled
pub mod Config
pub mod Security
pub mod Repositories
pub mod AuthService
pub mod OAuthService
pub mod RateLimiter
pub mod Metrics
pub mod Logging
pub mod Application
pub mod Middleware
pub mod Migrations
pub mod Deps
pub mod Routes
pub mod Schemas
pub mod Interleaving
pub mod System
mod Tests
