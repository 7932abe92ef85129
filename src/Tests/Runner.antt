-- ===== src/Tests/Runner.antt =====
-- The runner of the migrations, on the tables in memory.

use Prim.Native.String.{String as Text, [], ◌∷◌}
use mathlib.Core.List.{[], ◌∷◌}
use smart_auth_with_kubernat.Prelude.{
  String, ◌≡◌, refl, ◌⊎◌, Bool, true, false, Option, none, some, List, arith, ◌==◌, string_eq,
  nat_eq, ==_refl, if◌then◌else◌,
}
use smart_auth_with_kubernat.Prelude.Splits.{free}
use smart_auth_with_kubernat.Config.{Settings}
use smart_auth_with_kubernat.Exec.{Result, Failure, ok, err, exception}
use smart_auth_with_kubernat.Migrations.{upgrade}
use smart_auth_with_kubernat.Migrations.Environment.{Site, run_env}
use smart_auth_with_kubernat.Migrations.Environment.Atomic.{run_env-atomic}
use smart_auth_with_kubernat.Migrations.Environment.Outcomes.{run_env-online, run_env-raw_percent}
use smart_auth_with_kubernat.Platform.Alembic.{Alembic, IsAlembic, raw_percent}
use smart_auth_with_kubernat.Platform.Ddl.{Table}
use smart_auth_with_kubernat.Tests.Memory.{sample_settings}
use smart_auth_with_kubernat.Tests.Migrating.{memory_ddl, alembic_version, upgraded}

raw_percent-free : (s : Text) → free b'%' s ≡ true → raw_percent s ≡ false
unfolding free raw_percent
raw_percent-free [] h = refl
raw_percent-free (c ∷ s) h = ground (arith, raw_percent-free s)

abbrev Options : Type 0
Options = String → Option String

abbrev with_option : String → String → Options → Options
with_option name value o key = if key == name then some value else o key

set_unless : Bool → Options → Result {0} Options
set_unless raw o = if raw then err (exception "ValueError") else ok o

set_unless-ok : (raw : Bool) (o o' : Options) → set_unless raw o ≡ ok o' → o ≡ o'
unfolding set_unless
set_unless-ok true o o' h = ground arith
set_unless-ok false o o' h = ground arith

-- what is committed, what the connection sees, and whether it is in a transaction
abbrev Connection : Type 0
Connection = List Table × List Table × Bool

-- Outside of a transaction, what is done is committed at once.
abbrev ran : Option (List Table) → Connection → Result {0} Unit × Connection
ran none c = (err (exception "ProgrammingError"), c)
ran (some l) (committed, working, true) = (ok tt, (committed, l, true))
ran (some l) (committed, working, false) = (ok tt, (l, l, false))

ran-some :
    (o : Option (List Table)) (c : Connection) (l : List Table)
    → o ≡ some l
    → (c' : Connection) × (ran o c ≡ (ok tt, c')) × (c'.1 ≡ l)
ran-some none c l h = absurd (ground arith)
ran-some (some l') (committed, working, true) l h = ((committed, l', true), refl, ground arith)
ran-some (some l') (committed, working, false) l h = ((l', l', false), refl, ground arith)

ran-committed : (o : Option (List Table)) (c : Connection) → c.2 ≡ true → (ran o c).1.0 ≡ c.0
ran-committed none c h = refl
ran-committed (some l) (committed, working, true) h = refl
ran-committed (some l) (committed, working, false) h = absurd (ground arith)

abbrev memory_alembic : Alembic memory_ddl
memory_alembic = record {
  Options = Options;
  config_file_name = λ o. some "alembic.ini";
  set_main_option = λ name value o. set_unless (raw_percent value) (with_option name value o);
  get_main_option = λ name o. o name;
  Connection = Connection;
  connect = λ l. (l, l, false);
  committed = λ c. c.0;
  working = λ c. c.1;
  in_transaction = λ c. c.2;
  begin_transaction = λ c. (c.0, c.1, true);
  commit = λ c. (c.1, c.1, false);
  rollback = λ c. (c.0, c.0, false);
  run_migrations = λ revisions c. ran (revisions c.1) c;
  script = λ url. "BEGIN;" ∷ "COMMIT;" ∷ [];
  connects = λ url. true;
}

memory_alembic-IsAlembic : IsAlembic memory_alembic
unfolding set_unless
memory_alembic-IsAlembic = record {
  get-set_main_option = λ name value o o' h.
      rw (← set_unless-ok (raw_percent value) (with_option name value o) o' h)
        (rw (==_refl name) refl);
  set_main_option_lem =
      λ name value o h. (with_option name value o, rw (raw_percent-free value h) refl);
  set_main_option-raw_percent = λ name value o h. rw h refl;
  committed-connect = λ s. refl;
  working-connect = λ s. refl;
  committed-begin_transaction = λ c. refl;
  working-begin_transaction = λ c. refl;
  in_transaction-begin_transaction = λ c. refl;
  committed-commit = λ c. refl;
  committed-rollback = λ c. refl;
  run_migrations-some = λ revisions c s' h. ran-some (revisions c.1) c s' h;
  run_migrations-none = λ revisions c h. (exception "ProgrammingError", c, rw h refl);
  committed-run_migrations = λ revisions c h. ran-committed (revisions c.1) c h;
}

abbrev site : Site memory_alembic
site = record {
  options = λ key. none;
  logging_file = none;
  database = alembic_version ∷ [];
  printed = [];
  connections = 0;
  engines = 0;
}

abbrev deployed : Settings
deployed = record sample_settings { database_url = "postgresql+asyncpg://app:secret@db/auth" }

run_env-atomic_example :
    let (result, site') = run_env memory_alembic (upgrade memory_ddl) deployed false site in
    (site'.connections ≡ 0)
    × (((result ≡ ok tt)
          × (false ≡ false)
          × (upgrade memory_ddl (alembic_version ∷ []) ≡ some site'.database))
        ⊎ ((site'.database ≡ alembic_version ∷ [])
            × ((false ≡ true) ⊎ ((e : Failure) × (result ≡ err e)))))
run_env-atomic_example =
    run_env-atomic memory_alembic-IsAlembic (upgrade memory_ddl) deployed false site

run_env-online_example :
    let (result, site') = run_env memory_alembic (upgrade memory_ddl) deployed false site in
    (result ≡ ok tt)
    × (site'.options "sqlalchemy.url" ≡ some "postgresql+psycopg://app:secret@db/auth")
    × (site'.database ≡ upgraded)
    × (site'.connections ≡ 0)
    × (site'.engines ≡ 0)
unfolding upgrade free set_unless
run_env-online_example =
    run_env-online memory_alembic-IsAlembic (upgrade memory_ddl) deployed "postgresql"
      "://app:secret@db/auth" site upgraded refl refl refl refl refl refl

-- "@" in the password
abbrev escaped : Settings
escaped = record sample_settings { database_url = "postgresql+asyncpg://app:p%40ss@db/auth" }

run_env-raw_percent_example :
    let (result, site') = run_env memory_alembic (upgrade memory_ddl) escaped false site in
    (result ≡ err (exception "ValueError"))
    × (site'.database ≡ alembic_version ∷ [])
    × (site'.printed ≡ [])
unfolding raw_percent free
run_env-raw_percent_example =
    run_env-raw_percent memory_alembic-IsAlembic (upgrade memory_ddl) escaped "postgresql"
      "://app:p%40ss@db/auth" false site refl refl refl refl refl
