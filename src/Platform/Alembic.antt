-- ===== src/Platform/Alembic.antt =====
-- What the runner of the migrations calls of Alembic, of SQLAlchemy's engine and of `configparser`.
use Prim.Native.Char.{code}
use Prim.Native.String.{[], ◌∷◌}
use smart_auth_with_kubernat.Prelude.{
  String, Bool, true, false, not, ◌&&◌, ◌==◌, nat_eq, Option, none, some, List, ◌≡◌, if◌then◌else◌,
}
use smart_auth_with_kubernat.Prelude.Splits.{free}
use smart_auth_with_kubernat.Exec.{Result, ok, err, Failure, exception}
use smart_auth_with_kubernat.Platform.Ddl.{Ddl}

-- The text after a percent sign begins neither with another one nor with "(", which `configparser`
-- takes for the begin of a name.
abbrev pub is_unescaped : String → Bool
is_unescaped [] = true
is_unescaped (c ∷ s) = not (code c == b'%') && not (code c == b'(')

-- The first percent sign of the text is a raw one.
unfoldable pub raw_percent : String → Bool
raw_percent [] = false
raw_percent (c ∷ s) = let later = raw_percent s in if code c == b'%' then is_unescaped s else later

pub record Alembic (D : Ddl) : Type 1 where
  pub Options : Type 0
  pub config_file_name : Options → Option String
  pub set_main_option : String → String → Options → Result {0} Options
  pub get_main_option : String → Options → Option String
  -- a connection, what was committed of its work and what it sees itself
  pub Connection : Type 0
  pub connect : D.State → Connection
  pub committed : Connection → D.State
  pub working : Connection → D.State
  pub in_transaction : Connection → Bool
  -- `context.begin_transaction()`, and the ends of its `with`
  pub begin_transaction : Connection → Connection
  pub commit : Connection → Connection
  pub rollback : Connection → Connection
  -- `context.run_migrations()`, given what the revisions that are pending, and the version that is
  -- written after each, make of a database, or that one of them is refused
  pub run_migrations : (D.State → Option D.State) → Connection → Result {0} Unit × Connection
  -- the script that it prints without one, for the database of a URL
  pub script : Option String → List String
  -- The database of a URL lets us in.
  pub connects : String → Bool

pub record IsAlembic {D : Ddl} (E : Alembic D) : Type 0 where
  pub get-set_main_option :
      (name value : String) (o o' : E.Options)
      → E.set_main_option name value o ≡ ok o'
      → E.get_main_option name o' ≡ some value
  -- A value is set if it needs no interpolation, and refused for a raw percent sign.
  pub set_main_option_lem :
      (name value : String) (o : E.Options)
      → free b'%' value ≡ true
      → (o' : E.Options) × (E.set_main_option name value o ≡ ok o')
  pub set_main_option-raw_percent :
      (name value : String) (o : E.Options)
      → raw_percent value ≡ true
      → E.set_main_option name value o ≡ err (exception "ValueError")
  pub committed-connect : (s : D.State) → E.committed (E.connect s) ≡ s
  pub working-connect : (s : D.State) → E.working (E.connect s) ≡ s
  pub committed-begin_transaction :
      (c : E.Connection) → E.committed (E.begin_transaction c) ≡ E.committed c
  pub working-begin_transaction :
      (c : E.Connection) → E.working (E.begin_transaction c) ≡ E.working c
  pub in_transaction-begin_transaction :
      (c : E.Connection) → E.in_transaction (E.begin_transaction c) ≡ true
  pub committed-commit : (c : E.Connection) → E.committed (E.commit c) ≡ E.working c
  pub committed-rollback : (c : E.Connection) → E.committed (E.rollback c) ≡ E.committed c
  pub run_migrations-some :
      (revisions : D.State → Option D.State) (c : E.Connection) (s' : D.State)
      → revisions (E.working c) ≡ some s'
      → (c' : E.Connection) × (E.run_migrations revisions c ≡ (ok tt, c')) × (E.working c' ≡ s')
  pub run_migrations-none :
      (revisions : D.State → Option D.State) (c : E.Connection)
      → revisions (E.working c) ≡ none
      → (e : Failure) × (c' : E.Connection) × (E.run_migrations revisions c ≡ (err e, c'))
  -- PostgreSQL commits nothing of a transaction before its end, tables included.
  pub committed-run_migrations :
      (revisions : D.State → Option D.State) (c : E.Connection)
      → E.in_transaction c ≡ true
      → E.committed (E.run_migrations revisions c).1 ≡ E.committed c
