-- ===== src/Migrations/Environment/Outcomes.antt =====
-- Where the runner of the migrations succeeds, and where it is refused.
use Prim.Native.String.{◌++◌}
use smart_auth_with_kubernat.Prelude.{
  String, Bool, true, false, Option, none, some, ◌≡◌, refl, ◌∙◌, arith,
}
use smart_auth_with_kubernat.Prelude.Splits.{free}
use smart_auth_with_kubernat.Config.{Settings}
use smart_auth_with_kubernat.Exec.{Result, ok, err, exception}
use smart_auth_with_kubernat.Migrations.Environment.{
  Site, migration_url, run_migrations_online, on_engine, run_mode, configure_logging_from, run_env,
}
use smart_auth_with_kubernat.Migrations.Environment.Transaction.{do_run_migrations-some}
use smart_auth_with_kubernat.Migrations.Environment.Url.{replace-driver, raw_percent-append}
use smart_auth_with_kubernat.Platform.Alembic.{Alembic, IsAlembic, raw_percent}
use smart_auth_with_kubernat.Platform.Ddl.{Ddl}

module _ {D : Ddl} {E : Alembic D} (A : IsAlembic E) (revisions : D.State → Option D.State) where
  on_engine-done :
      (url : String) (site : Site E) (s' : D.State)
      → E.connects url ≡ true
      → revisions site.database ≡ some s'
      → on_engine E revisions (some url) site ≡ (ok tt, record site { database = s' })
  on_engine-done url site s' reached done =
      let (returned, made) = do_run_migrations-some A revisions site.database s' done in
      rw (reached, returned, made) (ground arith)

  run_mode-online :
      (url : String) (options : E.Options) (site : Site E) (s' : D.State)
      → E.get_main_option "sqlalchemy.url" options ≡ some url
      → E.connects url ≡ true
      → revisions site.database ≡ some s'
      → run_mode E revisions false (ok options) site
        ≡ (ok tt, record site { options = options; database = s' })
  unfolding run_migrations_online
  run_mode-online url options site s' set reached done =
      rw set (on_engine-done url (record site { options = options }) s' reached done)

  -- what is left where the revisions were made on the database of an address
  abbrev Finished : String → D.State → Site E → Result {0} Unit × Site E → Type 0
  Finished url s' site (result, site') =
      (result ≡ ok tt)
      × (E.get_main_option "sqlalchemy.url" site'.options ≡ some url)
      × (site'.database ≡ s')
      × (site'.connections ≡ site.connections)
      × (site'.engines ≡ site.engines)

  logged-Finished :
      (file : Option String) (url : String) (options : E.Options) (site : Site E) (s' : D.State)
      → E.get_main_option "sqlalchemy.url" options ≡ some url
      → E.connects url ≡ true
      → revisions site.database ≡ some s'
      → Finished url s' site
          (run_mode E revisions false (ok options) (configure_logging_from file site))
  logged-Finished none url options site s' set reached done =
      rw (run_mode-online url options site s' set reached done) (refl, set, refl, refl, refl)
  logged-Finished (some file) url options site s' set reached done =
      rw
        (run_mode-online url options (record site { logging_file = some file }) s' set reached done)
        (refl, set, refl, refl, refl)

  -- Where the application's address names asyncpg as its driver after its only plus sign and has no
  -- percent sign, the database of the address with psycopg instead can be reached, and the revisions
  -- succeed on it: the runner, online, returns with that address in its options and the revisions
  -- made, and neither a connection nor an engine is left.
  pub run_env-online :
      (settings : Settings) (scheme rest : String) (site : Site E) (s' : D.State)
      → settings.database_url ≡ scheme ++ ("+asyncpg" ++ rest)
      → free b'+' scheme ≡ true
      → free b'+' rest ≡ true
      → free b'%' (scheme ++ ("+psycopg" ++ rest)) ≡ true
      → E.connects (scheme ++ ("+psycopg" ++ rest)) ≡ true
      → revisions site.database ≡ some s'
      → let (result, site') = run_env E revisions settings false site in
        (result ≡ ok tt)
        × (E.get_main_option "sqlalchemy.url" site'.options ≡ some (scheme ++ ("+psycopg" ++ rest)))
        × (site'.database ≡ s')
        × (site'.connections ≡ site.connections)
        × (site'.engines ≡ site.engines)
  unfolding run_env migration_url
  run_env-online settings scheme rest site s' address plain_scheme plain_rest unescaped reached
        done =
      let url = scheme ++ ("+psycopg" ++ rest) in
      let file = E.config_file_name site.options in
      let logged = configure_logging_from file site in
      let (options, set) = A.set_main_option_lem "sqlalchemy.url" url logged.options unescaped in
      rw (address, replace-driver scheme rest plain_scheme plain_rest, set)
        (logged-Finished file url options site s'
          (A.get-set_main_option "sqlalchemy.url" url logged.options options set) reached done)

  configure_logging_from-data :
      (file : Option String) (site : Site E)
      → ((configure_logging_from file site).database ≡ site.database)
        × ((configure_logging_from file site).printed ≡ site.printed)
  configure_logging_from-data none site = (refl, refl)
  configure_logging_from-data (some file) site = (refl, refl)

  -- Where the application's address names asyncpg as its driver after its only plus sign, and its
  -- first percent sign, further on, is followed neither by another one nor by "(", neither mode runs:
  -- it ends as a ValueError, with the database as it was and nothing printed.
  pub run_env-raw_percent :
      (settings : Settings) (scheme rest : String) (offline : Bool) (site : Site E)
      → settings.database_url ≡ scheme ++ ("+asyncpg" ++ rest)
      → free b'+' scheme ≡ true
      → free b'+' rest ≡ true
      → free b'%' scheme ≡ true
      → raw_percent rest ≡ true
      → let (result, site') = run_env E revisions settings offline site in
        (result ≡ err (exception "ValueError"))
        × (site'.database ≡ site.database)
        × (site'.printed ≡ site.printed)
  unfolding run_env migration_url
  run_env-raw_percent settings scheme rest offline site address plain_scheme plain_rest
        unescaped_scheme raw =
      let url = scheme ++ ("+psycopg" ++ rest) in
      let file = E.config_file_name site.options in
      let logged = configure_logging_from file site in
      let (same, silent) = configure_logging_from-data file site in
      rw
        (
          address,
          replace-driver scheme rest plain_scheme plain_rest,
          A.set_main_option-raw_percent "sqlalchemy.url" url logged.options
              (raw_percent-append scheme rest unescaped_scheme ∙ raw),
        )
        (refl, same, silent)
