-- ===== src/Migrations/Entries.antt =====
-- What the columns and the constraints of a table say of its rows, and the rows of app/models/user.py
-- by their columns.
use Prim.Native.String.{count}
use smart_auth_with_kubernat.Prelude.{
  ℕ, String, Bool, true, false, not, ◌&&◌, ◌||◌, Option, none, some, List, [], ◌∷◌, ◌==◌, string_eq,
  nat_eq, leb, if◌then◌else◌,
}
use smart_auth_with_kubernat.Prelude.Texts.{has_nul}
use smart_auth_with_kubernat.Platform.Ddl.{
  ColumnType, uuid, string, boolean, date_time, Column, Constraint, primary_key, unique,
  foreign_key, Index, Table,
}
use smart_auth_with_kubernat.Models.{User, OAuthAccount, RefreshToken}

-- A UUID and a time are numbers, as in the models.
pub data Value : Type 0 where
  null : Value
  number : ℕ → Value
  text : String → Value
  flag : Bool → Value

-- a row: the value of each column
abbrev pub Entry : Type 0
Entry = String → Value

-- equality of keys, where null equals nothing
abbrev pub equals : Value → Value → Bool
equals (number a) (number b) = a == b
equals (text a) (text b) = a == b
equals (flag true) (flag b) = b
equals (flag false) (flag true) = false
equals (flag false) (flag false) = true
equals _ _ = false

-- PostgreSQL stores no text with a U+0000.
abbrev pub is_of_type : ColumnType → Value → Bool
is_of_type uuid (number a) = true
is_of_type (string n) (text s) = leb (count s) n && not (has_nul s)
is_of_type boolean (flag b) = true
is_of_type date_time (number t) = true
is_of_type _ _ = false

abbrev pub admits : Column → Value → Bool
admits column null = column.nullable
admits column value = is_of_type column.column_type value

-- Every column admits its value.
abbrev pub admits_all : List Column → Entry → Bool
admits_all [] entry = true
admits_all (column ∷ columns) entry = admits column (entry column.name) && admits_all columns entry

abbrev pub agree_on : List String → Entry → Entry → Bool
agree_on [] x y = true
agree_on (column ∷ columns) x y = equals (y column) (x column) && agree_on columns x y

abbrev pub violates : Constraint → Entry → Entry → Bool
violates (primary_key columns) x y = agree_on columns x y
violates (unique name columns) x y = agree_on columns x y
violates (foreign_key column table referred) x y = false

abbrev pub violates_any : List Constraint → Entry → Entry → Bool
violates_any [] x y = false
violates_any (c ∷ constraints) x y = violates c x y || violates_any constraints x y

abbrev pub collides : List Index → Entry → Entry → Bool
collides [] x y = false
collides (i ∷ indexes) x y = i.unique && agree_on i.columns x y || collides indexes x y

-- Two rows cannot both be in the table: they agree in a key.
abbrev pub excludes : Table → Entry → Entry → Bool
excludes table x y = violates_any table.constraints x y || collides table.indexes x y

-- All foreign keys of a row that name the other table refer to a row of that.
abbrev pub refers_all : List Constraint → Entry → String → Entry → Bool
refers_all [] x table y = true
refers_all (foreign_key column referred referred_column ∷ constraints) x table y =
    (if referred == table then equals (y referred_column) (x column) else true)
    && refers_all constraints x table y
refers_all (_ ∷ constraints) x table y = refers_all constraints x table y

abbrev entry_of : List (String × Value) → Entry
entry_of [] column = null
entry_of ((name, value) ∷ values) column = if name == column then value else entry_of values column

abbrev pub optional_text : Option String → Value
optional_text none = null
optional_text (some s) = text s

abbrev pub optional_time : Option ℕ → Value
optional_time none = null
optional_time (some t) = number t

abbrev pub user_entry : User → Entry
user_entry u = entry_of (
    ("id", number u.id)
    ∷ ("email", text u.email)
    ∷ ("full_name", text u.full_name)
    ∷ ("password_hash", optional_text u.password_hash)
    ∷ ("avatar_url", optional_text u.avatar_url)
    ∷ ("is_active", flag u.is_active)
    ∷ ("email_verified", flag u.email_verified)
    ∷ ("created_at", number u.created_at)
    ∷ ("updated_at", number u.updated_at)
    ∷ [])

abbrev pub account_entry : OAuthAccount → Entry
account_entry a = entry_of (
    ("id", number a.id)
    ∷ ("user_id", number a.user_id)
    ∷ ("provider", text a.provider)
    ∷ ("provider_user_id", text a.provider_user_id)
    ∷ ("created_at", number a.created_at)
    ∷ [])

abbrev pub token_entry : RefreshToken → Entry
token_entry t = entry_of (
    ("id", number t.id)
    ∷ ("user_id", number t.user_id)
    ∷ ("jti", text t.jti)
    ∷ ("expires_at", number t.expires_at)
    ∷ ("revoked_at", optional_time t.revoked_at)
    ∷ ("created_at", number t.created_at)
    ∷ [])
