-- ===== src/Migrations/Environment/Atomic.antt =====
-- What the runner leaves of the database, whatever fails.
use smart_auth_with_kubernat.Prelude.{
  ◌+◌, String, Bool, true, false, Option, none, some, ◌≡◌, refl, ◌⊎◌, inl, inr, arith, Bool-cases,
  Option-cases,
}
use smart_auth_with_kubernat.Config.{Settings}
use smart_auth_with_kubernat.Exec.{Result, ok, err, Failure}
use smart_auth_with_kubernat.Migrations.Environment.{
  Site, run_migrations_offline, do_run_migrations, run_migrations_online, dispose_after, on_engine,
  run_mode, configure_logging_from, run_env,
}
use smart_auth_with_kubernat.Migrations.Environment.Transaction.{
  do_run_migrations-some, do_run_migrations-none,
}
use smart_auth_with_kubernat.Platform.Alembic.{Alembic, IsAlembic}
use smart_auth_with_kubernat.Platform.Ddl.{Ddl}

abbrev HasFailed : Result {0} Unit → Type 0
HasFailed result = (e : Failure) × (result ≡ err e)

module _ {D : Ddl} {E : Alembic D} (A : IsAlembic E) (revisions : D.State → Option D.State) where
  -- It returned and all is done, or it failed and nothing is.
  abbrev Migrated : D.State → Result {0} Unit → D.State → Type 0
  Migrated s result s' =
      ((result ≡ ok tt) × (revisions s ≡ some s')) ⊎ ((s' ≡ s) × HasFailed result)

  do_run_migrations-Migrated :
      (s : D.State)
      → let (result, c) = do_run_migrations E revisions (E.connect s) in
        Migrated s result (E.committed c)
  do_run_migrations-Migrated s = elim (Option-cases (revisions s)) [
    | inl refused ↦
        let (failed, kept) = do_run_migrations-none A revisions s refused in inr (kept, failed)
    | inr (s', done) ↦
        let (returned, made) = do_run_migrations-some A revisions s s' done in
        inl (returned, rw made done)
  ]

  abbrev Kept : Site E → Result {0} Unit × Site E → Type 0
  Kept site (result, site') =
      (site'.connections ≡ site.connections) × Migrated site.database result site'.database

  dispose_after-Kept :
      (site : Site E) (result : Result {0} Unit) (s : D.State)
      → Migrated site.database result s
      → Kept site (
          dispose_after E revisions (
            result,
            record site {
              database = s;
              engines = site.engines + 1;
              connections = site.connections + 1;
            },
          ))
  dispose_after-Kept site (ok done) s h = (omega arith, h)
  dispose_after-Kept site (err e) s h = (omega arith, h)

  on_engine-Kept :
      (url : Option String) (site : Site E) → Kept site (on_engine E revisions url site)
  on_engine-Kept none site = (refl, inr (refl, (_, refl)))
  on_engine-Kept (some url) site = elim (Bool-cases (E.connects url)) [
    | inl reached ↦
        rw reached (dispose_after-Kept site _ _ (do_run_migrations-Migrated site.database))
    | inr unreached ↦ rw unreached (refl, inr (refl, (_, refl)))
  ]

  -- the database and the connections of a site that only has other options
  abbrev Done : Bool → Site E → Result {0} Unit × Site E → Type 0
  Done offline site (result, site') =
      (site'.connections ≡ site.connections)
      × (((result ≡ ok tt) × (offline ≡ false) × (revisions site.database ≡ some site'.database))
          ⊎ ((site'.database ≡ site.database) × ((offline ≡ true) ⊎ HasFailed result)))

  run_mode-Done :
      (offline : Bool) (set : Result {0} E.Options) (site : Site E)
      → Done offline site (run_mode E revisions offline set site)
  unfolding run_migrations_offline run_migrations_online
  run_mode-Done offline (err e) site = (refl, inr (refl, inr (e, refl)))
  run_mode-Done true (ok options) site = (refl, inr (refl, inl refl))
  run_mode-Done false (ok options) site =
      let (closed, outcome) =
        on_engine-Kept (E.get_main_option "sqlalchemy.url" options)
          (record site { options = options }) in
      (
        closed,
        elim outcome [
          | inl (returned, done) ↦ inl (returned, refl, done)
          | inr (same, failed) ↦ inr (same, inr failed)
        ],
      )

  configured-Done :
      (file : Option String) (offline : Bool) (set : Result {0} E.Options) (site : Site E)
      → Done offline site (run_mode E revisions offline set (configure_logging_from file site))
  configured-Done none offline set site = run_mode-Done offline set site
  configured-Done (some file) offline set site =
      run_mode-Done offline set (record site { logging_file = some file })

  -- Whatever the mode, the URL, the revisions and the database: the runner leaves no connection open,
  -- and either it returned, was not offline and all of the revisions were made, or the database is as
  -- before, and the runner was offline or failed.
  pub run_env-atomic :
      (settings : Settings) (offline : Bool) (site : Site E)
      → let (result, site') = run_env E revisions settings offline site in
        (site'.connections ≡ site.connections)
        × (((result ≡ ok tt) × (offline ≡ false) × (revisions site.database ≡ some site'.database))
            ⊎ ((site'.database ≡ site.database)
                × ((offline ≡ true) ⊎ ((e : Failure) × (result ≡ err e)))))
  unfolding run_env
  run_env-atomic settings offline site =
      configured-Done (E.config_file_name site.options) offline _ site
