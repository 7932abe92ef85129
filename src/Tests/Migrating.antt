-- ===== src/Tests/Migrating.antt =====
-- A database of tables in memory, and the migration on it.
use smart_auth_with_kubernat.Prelude.{
  ◌≡◌, refl, true, false, not, ◌&&◌, none, some, List, [], ◌∷◌, ◌++◌, arith, string_eq, is_some,
  if◌then◌else◌,
}
use smart_auth_with_kubernat.Prelude.Rows.{find?, update}
use smart_auth_with_kubernat.Platform.Ddl.{
  Table, Ddl, IsDdl, named, remove, add_index, without_index, has_index, refers_to, string,
}
use smart_auth_with_kubernat.Migrations.{upgrade, downgrade, oauth_accounts_table}
use smart_auth_with_kubernat.Migrations.Agreement.{tables-agree, users, refresh_tokens}
use smart_auth_with_kubernat.Migrations.Entries.{
  user_entry, account_entry, token_entry, admits_all, excludes, refers_all,
}
use smart_auth_with_kubernat.Models.{
  User, OAuthAccount, RefreshToken, user_fits, account_fits, token_fits,
}
use smart_auth_with_kubernat.Migrations.Roundtrip.{upgrade-downgrade, created}

abbrev pub memory_ddl : Ddl
memory_ddl = record {
  State = List Table;
  tables = λ l. l;
  create_table = λ t l. if is_some (find? (named t.name) l) then none else some (t ∷ l);
  create_index = λ i table l.
      if is_some (find? (named table) l) then some (update (named table) (add_index i) l) else none;
  drop_index = λ name table l.
      if is_some (find? (has_index name table) l)
      then some (update (named table) (without_index name) l)
      else none;
  drop_table = λ name l.
      if is_some (find? (named name) l)
        && not (is_some (find? (refers_to name) (remove (named name) l)))
      then some (remove (named name) l)
      else none;
}

pub memory_ddl-IsDdl : IsDdl memory_ddl
memory_ddl-IsDdl = record {
  find?-create_table = λ t s s' h. ground arith;
  tables-create_table = λ t s s' h. ground arith;
  tables-create_index = λ i table s s' h. ground arith;
  drop_index_lem = λ name table s h. (_, rw h refl, refl);
  drop_table_lem = λ name s h k. (_, rw (h, k) refl, refl);
}

-- the table in which Alembic keeps the revision
abbrev pub alembic_version : Table
alembic_version = record {
  name = "alembic_version";
  columns =
      record {
        name = "version_num";
        column_type = string 32;
        nullable = false;
        server_default = none;
      }
      ∷ [];
  constraints = [];
  indexes = [];
}

abbrev pub upgraded : List Table
upgraded = created ++ alembic_version ∷ []

upgrade-downgrade_example :
    (upgraded ≡ created ++ alembic_version ∷ [])
    × ((s'' : List Table) × (downgrade memory_ddl upgraded ≡ some s'')
        × (s'' ≡ alembic_version ∷ []))
unfolding upgrade
upgrade-downgrade_example =
    upgrade-downgrade memory_ddl-IsDdl (alembic_version ∷ []) upgraded (λ name h. refl) refl

-- A second upgrade is refused: the tables are there.
upgrade-twice : upgrade memory_ddl upgraded ≡ none
unfolding upgrade
upgrade-twice = refl

abbrev ann : User
ann = record {
  id = 1;
  email = "ann@example.com";
  full_name = "Ann";
  password_hash = none;
  avatar_url = none;
  is_active = true;
  email_verified = true;
  created_at = 10;
  updated_at = 10;
}

-- another user of the e-mail
abbrev other_ann : User
other_ann = record ann { id = 2 }

abbrev account : OAuthAccount
account = record {
  id = 5;
  user_id = 1;
  provider = "github";
  provider_user_id = "77";
  created_at = 20;
}

abbrev other_account : OAuthAccount
other_account = record account { id = 6; provider = "google" }

abbrev token : RefreshToken
token = record {
  id = 8;
  user_id = 2;
  jti = "j1";
  expires_at = 99;
  revoked_at = none;
  created_at = 20;
}

abbrev other_token : RefreshToken
other_token = record token { id = 9 }

tables-agree_example :
    (admits_all users.columns (user_entry ann) ≡ true)
    × (admits_all oauth_accounts_table.columns (account_entry account) ≡ true)
    × (admits_all refresh_tokens.columns (token_entry token) ≡ true)
    × (excludes users (user_entry ann) (user_entry other_ann) ≡ true)
    × (excludes oauth_accounts_table (account_entry account) (account_entry other_account) ≡ false)
    × (excludes refresh_tokens (token_entry token) (token_entry other_token) ≡ true)
    × (refers_all oauth_accounts_table.constraints (account_entry account) "users" (user_entry ann)
        ≡ true)
    × (refers_all refresh_tokens.constraints (token_entry token) "users" (user_entry ann) ≡ false)
unfolding user_fits account_fits token_fits
tables-agree_example = tables-agree ann other_ann account other_account token other_token
