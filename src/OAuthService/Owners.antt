-- ===== src/OAuthService/Owners.antt =====
-- The user that an account at a provider belongs to: no transaction changes it.
use smart_auth_with_kubernat.Prelude.{
  ℕ, String, ◌≡◌, Option, none, some, true, List, [], ◌∷◌, arith, inl, inr, is_some, Bool-cases,
  nat_eq, string_eq, ==_iff,
}
use smart_auth_with_kubernat.Prelude.Rows.{find?}
use smart_auth_with_kubernat.Constraints.{
  Change, Changes, new_user, new_account, new_token, assigned, token_revoked, here, next,
}
use smart_auth_with_kubernat.Models.{OAuthAccount}
use smart_auth_with_kubernat.Platform.Database.{Rows, has_identity, account_clashes}

abbrev pub owner_of : Option OAuthAccount → Option ℕ
owner_of none = none
owner_of (some a) = some a.user_id

-- the user that an account at a provider belongs to
abbrev pub owner_in : String → String → Rows → Option ℕ
owner_in provider subject r = owner_of (find? (has_identity provider subject) r.accounts)

-- A row for an account that is there clashes with it.
clashes_of_identity :
    (a : OAuthAccount) (p s : String) (l : List OAuthAccount) (i : ℕ)
    → has_identity p s a ≡ true
    → owner_of (find? (has_identity p s) l) ≡ some i
    → is_some (find? (account_clashes a) l) ≡ true
clashes_of_identity a p s [] i same h = cc
clashes_of_identity a p s (b ∷ l) i same h = ground (
  arith,
  clashes_of_identity a p s l i same,
  ==_iff a.provider p,
  ==_iff a.provider_user_id s,
  ==_iff b.provider p,
  ==_iff b.provider_user_id s,
  ==_iff b.provider a.provider,
  ==_iff b.provider_user_id a.provider_user_id,
)

Change-owner_in :
    {r r' : Rows} (p s : String) (i : ℕ)
    → Change r r'
    → owner_in p s r ≡ some i
    → owner_in p s r' ≡ some i
Change-owner_in p s i (new_user u fresh) h = h
Change-owner_in {r} p s i (new_account a fresh owner) h = elim (Bool-cases (has_identity p s a)) [
  | inl same ↦ absurd (let clash = clashes_of_identity a p s r.accounts i same h in cc)
  | inr other ↦ rw other h
]
Change-owner_in p s i (new_token t fresh owner) h = h
Change-owner_in p s i (assigned j t a) h = h
Change-owner_in p s i (token_revoked j now) h = h

-- No transaction gives an account to another user.
pub Changes-owner_in :
    {r r' : Rows} (p s : String) (i : ℕ)
    → Changes r r'
    → owner_in p s r ≡ some i
    → owner_in p s r' ≡ some i
Changes-owner_in p s i here h = h
Changes-owner_in p s i (next k c) h = Change-owner_in p s i c (Changes-owner_in p s i k h)
