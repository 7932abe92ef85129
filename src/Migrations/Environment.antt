-- ===== src/Migrations/Environment.antt =====
-- alembic/env.py: the runner of the migrations.
mod Transaction
pub mod Atomic
pub mod Url
pub mod Outcomes
use smart_auth_with_kubernat.Prelude.{
  ℕ, ◌+◌, ◌-◌, String, Bool, true, false, Option, none, some, List, [], ◌∷◌, ◌++◌, ◌≡◌,
  if◌then◌else◌,
}
use smart_auth_with_kubernat.Prelude.Splits.{replace}
use smart_auth_with_kubernat.Config.{Settings}
use smart_auth_with_kubernat.Exec.{Result, ok, err, Failure, exception}
use smart_auth_with_kubernat.Platform.Alembic.{Alembic}
use smart_auth_with_kubernat.Platform.Ddl.{Ddl}

-- the options, the file that logging was configured from, the tables, what was printed, and how many
-- connections and engines are open
pub record Site {D : Ddl} (E : Alembic D) : Type 0 where
  pub options : E.Options
  pub logging_file : Option String
  pub database : D.State
  pub printed : List String
  pub connections : ℕ
  pub engines : ℕ

-- the driver of asyncio replaced by one that Alembic can use
unfoldable pub migration_url : Settings → String
migration_url settings = replace "+asyncpg" "+psycopg" settings.database_url

-- `if config.config_file_name is not None: fileConfig(config.config_file_name)`
abbrev pub configure_logging_from : {D : Ddl} {E : Alembic D} → Option String → Site E → Site E
configure_logging_from none site = site
configure_logging_from (some file) site = record site { logging_file = some file }

module _ {D : Ddl} (E : Alembic D) (revisions : D.State → Option D.State) where
  unfoldable pub run_migrations_offline : Site E → Result {0} Unit × Site E
  run_migrations_offline site = (
    ok tt,
    record site {
      printed = site.printed ++ E.script (E.get_main_option "sqlalchemy.url" site.options);
    },
  )

  -- the end of `with context.begin_transaction()`
  abbrev pub end_transaction : Result {0} Unit × E.Connection → Result {0} Unit × E.Connection
  end_transaction (ok done, c) = (ok done, E.commit c)
  end_transaction (err e, c) = (err e, E.rollback c)

  unfoldable pub do_run_migrations : E.Connection → Result {0} Unit × E.Connection
  do_run_migrations connection =
      end_transaction (E.run_migrations revisions (E.begin_transaction connection))

  -- The connection is closed whatever happens, the engine is disposed of at the end.
  abbrev dispose_after : Result {0} Unit × Site E → Result {0} Unit × Site E
  dispose_after (ok done, site) =
      (ok done, record site { connections = site.connections - 1; engines = site.engines - 1 })
  dispose_after (err e, site) = (err e, record site { connections = site.connections - 1 })

  -- an engine for the URL of the options, a connection of it, and the revisions on that
  abbrev pub on_engine : Option String → Site E → Result {0} Unit × Site E
  on_engine none site = (err (exception "KeyError"), site)
  on_engine (some url) site =
      let made = record site { engines = site.engines + 1 } in
      if E.connects url
      then (let (result, connection) = do_run_migrations (E.connect site.database) in
          dispose_after (
            result,
            record made { database = E.committed connection; connections = made.connections + 1 },
          ))
      else (err (exception "OperationalError"), made)

  unfoldable pub run_migrations_online : Site E → Result {0} Unit × Site E
  run_migrations_online site = on_engine (E.get_main_option "sqlalchemy.url" site.options) site

  abbrev pub run_mode : Bool → Result {0} E.Options → Site E → Result {0} Unit × Site E
  run_mode offline (err e) site = (err e, site)
  run_mode true (ok options) site = run_migrations_offline (record site { options = options })
  run_mode false (ok options) site = run_migrations_online (record site { options = options })

  -- the module itself, which Alembic runs
  unfoldable pub run_env : Settings → Bool → Site E → Result {0} Unit × Site E
  run_env settings offline site =
      let logged = configure_logging_from (E.config_file_name site.options) site in
      run_mode offline (E.set_main_option "sqlalchemy.url" (migration_url settings) logged.options)
        logged
