-- ===== src/Migrations.antt =====
-- alembic/versions/20260308_0001_create_auth_tables.py: the tables that the migration creates.
pub mod Roundtrip
pub mod Environment
pub mod Entries
pub mod Agreement
use smart_auth_with_kubernat.Prelude.{String, true, false, Option, none, some, List, [], ◌∷◌}
use smart_auth_with_kubernat.Platform.Ddl.{
  ColumnType, uuid, string, boolean, date_time, Column, Constraint, primary_key, unique,
  foreign_key, Index, Table, Ddl,
}

infixl 10 ◌>>=◌
abbrev pub ◌>>=◌ : {State : Type 0} → Option State → (State → Option State) → Option State
done >>= rest = elim done [ none ↦ none | some s ↦ rest s ]

-- `sa.Column(name, column_type, nullable=False)`
abbrev required : String → ColumnType → Column
required name column_type = record {
  name = name;
  column_type = column_type;
  nullable = false;
  server_default = none;
}

-- `sa.Column(name, column_type, nullable=True)`
abbrev pub optional : String → ColumnType → Column
optional name column_type = record {
  name = name;
  column_type = column_type;
  nullable = true;
  server_default = none;
}

-- `sa.Column(name, column_type, nullable=False, server_default=server_default)`
abbrev defaulted : String → ColumnType → String → Column
defaulted name column_type server_default = record {
  name = name;
  column_type = column_type;
  nullable = false;
  server_default = some server_default;
}

abbrev pub users_table : Table
users_table = record {
  name = "users";
  columns =
      required "id" uuid
      ∷ required "email" (string 320)
      ∷ required "full_name" (string 255)
      ∷ optional "password_hash" (string 255)
      ∷ optional "avatar_url" (string 500)
      ∷ defaulted "is_active" boolean "true"
      ∷ defaulted "email_verified" boolean "false"
      ∷ defaulted "created_at" date_time "CURRENT_TIMESTAMP"
      ∷ defaulted "updated_at" date_time "CURRENT_TIMESTAMP"
      ∷ [];
  constraints = primary_key ("id" ∷ []) ∷ unique none ("email" ∷ []) ∷ [];
  indexes = [];
}

abbrev pub oauth_accounts_table : Table
oauth_accounts_table = record {
  name = "oauth_accounts";
  columns =
      required "id" uuid
      ∷ required "user_id" uuid
      ∷ required "provider" (string 50)
      ∷ required "provider_user_id" (string 255)
      ∷ defaulted "created_at" date_time "CURRENT_TIMESTAMP"
      ∷ [];
  constraints =
      foreign_key "user_id" "users" "id"
      ∷ primary_key ("id" ∷ [])
      ∷ unique (some "uq_oauth_provider_user") ("provider" ∷ "provider_user_id" ∷ [])
      ∷ [];
  indexes = [];
}

abbrev pub refresh_tokens_table : Table
refresh_tokens_table = record {
  name = "refresh_tokens";
  columns =
      required "id" uuid
      ∷ required "user_id" uuid
      ∷ required "jti" (string 64)
      ∷ required "expires_at" date_time
      ∷ optional "revoked_at" date_time
      ∷ defaulted "created_at" date_time "CURRENT_TIMESTAMP"
      ∷ [];
  constraints =
      foreign_key "user_id" "users" "id" ∷ primary_key ("id" ∷ []) ∷ unique none ("jti" ∷ []) ∷ [];
  indexes = [];
}

abbrev pub ix_users_email : Index
ix_users_email = record { name = "ix_users_email"; columns = "email" ∷ []; unique = true }

abbrev pub ix_refresh_tokens_jti : Index
ix_refresh_tokens_jti = record {
  name = "ix_refresh_tokens_jti";
  columns = "jti" ∷ [];
  unique = true;
}

module _ (D : Ddl) where
  unfoldable pub upgrade : D.State → Option D.State
  upgrade s = do
    s1 ← D.create_table users_table s
    s2 ← D.create_index ix_users_email "users" s1
    s3 ← D.create_table oauth_accounts_table s2
    s4 ← D.create_table refresh_tokens_table s3
    D.create_index ix_refresh_tokens_jti "refresh_tokens" s4

  unfoldable pub downgrade : D.State → Option D.State
  downgrade s = do
    s1 ← D.drop_index "ix_refresh_tokens_jti" "refresh_tokens" s
    s2 ← D.drop_table "refresh_tokens" s1
    s3 ← D.drop_table "oauth_accounts" s2
    s4 ← D.drop_index "ix_users_email" "users" s3
    D.drop_table "users" s4
