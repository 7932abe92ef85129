-- ===== src/Migrations/Agreement.antt =====
-- The tables of the migration against the models of app/models/user.py.
use smart_auth_with_kubernat.Prelude.{
  ℕ, String, ◌≡◌, refl, true, Option, none, some, arith, string_eq, nat_eq,
}
use smart_auth_with_kubernat.Models.{
  User, OAuthAccount, RefreshToken, fits_optional, user_fits, account_fits, token_fits,
}
use smart_auth_with_kubernat.Platform.Ddl.{Table, add_index, string, date_time}
use smart_auth_with_kubernat.Platform.Database.{
  has_id, user_clashes, account_clashes, token_clashes,
}
use smart_auth_with_kubernat.Migrations.{
  users_table, oauth_accounts_table, refresh_tokens_table, ix_users_email, ix_refresh_tokens_jti,
  optional,
}
use smart_auth_with_kubernat.Migrations.Entries.{
  user_entry, account_entry, token_entry, admits, admits_all, excludes, refers_all, optional_text,
  optional_time,
}

abbrev pub users : Table
users = add_index ix_users_email users_table

abbrev pub refresh_tokens : Table
refresh_tokens = add_index ix_refresh_tokens_jti refresh_tokens_table

admits-optional_text :
    (name : String) (n : ℕ) (o : Option String)
    → admits (optional name (string n)) (optional_text o) ≡ fits_optional n o
admits-optional_text name n none = refl
admits-optional_text name n (some s) = refl

admits-optional_time :
    (name : String) (o : Option ℕ) → admits (optional name date_time) (optional_time o) ≡ true
admits-optional_time name none = refl
admits-optional_time name (some t) = refl

users-fit : (u : User) → admits_all users.columns (user_entry u) ≡ user_fits u
unfolding user_fits
users-fit u = ground (
  arith,
  admits-optional_text "password_hash" 255 u.password_hash,
  admits-optional_text "avatar_url" 500 u.avatar_url,
)

users-exclude : (u v : User) → excludes users (user_entry u) (user_entry v) ≡ user_clashes u v
users-exclude u v = ground arith

accounts-fit :
    (a : OAuthAccount) → admits_all oauth_accounts_table.columns (account_entry a) ≡ account_fits a
unfolding account_fits
accounts-fit a = ground arith

accounts-exclude :
    (a b : OAuthAccount)
    → excludes oauth_accounts_table (account_entry a) (account_entry b) ≡ account_clashes a b
accounts-exclude a b = ground arith

tokens-fit : (r : RefreshToken) → admits_all refresh_tokens.columns (token_entry r) ≡ token_fits r
unfolding token_fits
tokens-fit r = ground (arith, admits-optional_time "revoked_at" r.revoked_at)

tokens-exclude :
    (r q : RefreshToken)
    → excludes refresh_tokens (token_entry r) (token_entry q) ≡ token_clashes r q
tokens-exclude r q = ground arith

accounts-refer :
    (u : User) (a : OAuthAccount)
    → refers_all oauth_accounts_table.constraints (account_entry a) "users" (user_entry u)
      ≡ has_id a.user_id u
accounts-refer u a = ground arith

tokens-refer :
    (u : User) (r : RefreshToken)
    → refers_all refresh_tokens.constraints (token_entry r) "users" (user_entry u)
      ≡ has_id r.user_id u
tokens-refer u r = ground arith

-- The migration and the models agree on what rows are refused: a row fits the columns of its table
-- exactly where it fits the lengths that its model declares, two rows exclude each other under the
-- keys and unique indexes of their table exactly where those of the model clash, and the foreign
-- keys of an account and of a token lead to a user's row exactly where it has the id that they name.
pub tables-agree :
    (u v : User) (a b : OAuthAccount) (r q : RefreshToken)
    → (admits_all users.columns (user_entry u) ≡ user_fits u)
      × (admits_all oauth_accounts_table.columns (account_entry a) ≡ account_fits a)
      × (admits_all refresh_tokens.columns (token_entry r) ≡ token_fits r)
      × (excludes users (user_entry u) (user_entry v) ≡ user_clashes u v)
      × (excludes oauth_accounts_table (account_entry a) (account_entry b) ≡ account_clashes a b)
      × (excludes refresh_tokens (token_entry r) (token_entry q) ≡ token_clashes r q)
      × (refers_all oauth_accounts_table.constraints (account_entry a) "users" (user_entry u)
          ≡ has_id a.user_id u)
      × (refers_all refresh_tokens.constraints (token_entry r) "users" (user_entry u)
          ≡ has_id r.user_id u)
tables-agree u v a b r q = (
  users-fit u,
  accounts-fit a,
  tokens-fit r,
  users-exclude u v,
  accounts-exclude a b,
  tokens-exclude r q,
  accounts-refer u a,
  tokens-refer u r,
)
