-- ===== src/Platform/Ddl.antt =====
-- Tables as PostgreSQL keeps them, and the operations of Alembic on them.
use smart_auth_with_kubernat.Prelude.{
  ℕ, String, ◌≡◌, Bool, true, false, Option, some, List, [], ◌∷◌, ◌==◌, string_eq, is_some,
  if◌then◌else◌,
}
use smart_auth_with_kubernat.Prelude.Rows.{find?, update}

pub data ColumnType : Type 0 where
  uuid : ColumnType
  string : ℕ → ColumnType
  boolean : ColumnType
  date_time : ColumnType

pub record Column : Type 0 where
  pub name : String
  pub column_type : ColumnType
  pub nullable : Bool
  pub server_default : Option String

-- A unique constraint may have a name. A foreign key has its column, and the table and the column that
-- it refers to; all are ON DELETE CASCADE.
pub data Constraint : Type 0 where
  primary_key : List String → Constraint
  unique : Option String → List String → Constraint
  foreign_key : String → String → String → Constraint

pub record Index : Type 0 where
  pub name : String
  pub columns : List String
  pub unique : Bool

pub record Table : Type 0 where
  pub name : String
  pub columns : List Column
  pub constraints : List Constraint
  pub indexes : List Index

abbrev pub named : String → Table → Bool
named name t = t.name == name

abbrev pub remove {ℓ} : {A : Type ℓ} → (A → Bool) → List A → List A
remove p [] = []
remove p (x ∷ xs) = if p x then remove p xs else x ∷ remove p xs

abbrev pub index_named : String → Index → Bool
index_named name i = i.name == name

abbrev pub add_index : Index → Table → Table
add_index i t = record t { indexes = i ∷ t.indexes }

abbrev pub without_index : String → Table → Table
without_index name t = record t { indexes = remove (index_named name) t.indexes }

abbrev pub has_index : String → String → Table → Bool
has_index name table t =
    if named table t then is_some (find? (index_named name) t.indexes) else false

abbrev pub is_reference : String → Constraint → Bool
is_reference table (primary_key columns) = false
is_reference table (unique name columns) = false
is_reference table (foreign_key column referred referred_column) = referred == table

abbrev pub refers_to : String → Table → Bool
refers_to table t = is_some (find? (is_reference table) t.constraints)

-- Each operation ends in the database after it, or is refused.
pub record Ddl : Type 1 where
  pub State : Type 0
  -- the newest first
  pub tables : State → List Table
  pub create_table : Table → State → Option State
  pub create_index : Index → String → State → Option State
  pub drop_index : String → String → State → Option State
  pub drop_table : String → State → Option State

-- What PostgreSQL says of the operations, in a database that holds nothing but tables, no two of them
-- of one name.
pub record IsDdl (D : Ddl) : Type 0 where
  pub find?-create_table :
      (t : Table) (s s' : D.State)
      → D.create_table t s ≡ some s'
      → is_some (find? (named t.name) (D.tables s)) ≡ false
  pub tables-create_table :
      (t : Table) (s s' : D.State) → D.create_table t s ≡ some s' → D.tables s' ≡ t ∷ D.tables s
  pub tables-create_index :
      (i : Index) (table : String) (s s' : D.State)
      → D.create_index i table s ≡ some s'
      → D.tables s' ≡ update (named table) (add_index i) (D.tables s)
  -- An index that is there can be dropped.
  pub drop_index_lem :
      (name table : String) (s : D.State)
      → is_some (find? (has_index name table) (D.tables s)) ≡ true
      → (s' : D.State) × (D.drop_index name table s ≡ some s')
        × (D.tables s' ≡ update (named table) (without_index name) (D.tables s))
  -- A table that is there can be dropped, unless another one refers to it.
  pub drop_table_lem :
      (name : String) (s : D.State)
      → is_some (find? (named name) (D.tables s)) ≡ true
      → is_some (find? (refers_to name) (remove (named name) (D.tables s))) ≡ false
      → (s' : D.State) × (D.drop_table name s ≡ some s')
        × (D.tables s' ≡ remove (named name) (D.tables s))
