-- ===== src/Platform.antt =====
-- What the program runs on: the database, Redis and the libraries, none of which is its own code.
pub mod Database
pub mod Redis
pub mod Http
pub mod Libraries
pub mod Registry
pub mod Contextvars
pub mod Ddl
pub mod Alembic
use smart_auth_with_kubernat.Prelude.{ℕ}

pub record Platform : Type 1 where
  pub database : Database.Database
  pub open database use *
  pub redis : Redis.Redis
  pub open redis use *
  pub libraries : Libraries.Libraries
  pub open libraries use *

-- The platform does what its documentation says.
pub record IsDocumented (P : Platform) : Type 0 where
  pub of_database : Database.IsDatabase P.database
  pub open of_database use *
  pub of_redis : Redis.IsRedis P.redis
  pub open of_redis use *
  pub of_libraries : Libraries.AreLibraries P.libraries
  pub open of_libraries use *

-- The state that requests share: the database session, the keys in Redis, and how often the clock
-- has been read and randomness has been drawn.
pub record World (P : Platform) : Type 0 where
  pub session : P.Session
  pub store : P.Store
  pub readings : ℕ
  pub draws : ℕ
