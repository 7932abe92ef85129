-- ===== src/OAuthService/Invariant.antt =====
-- Whatever a call of the OAuth service is given, and however it ends, it leaves a settled session.
use smart_auth_with_kubernat.Prelude.{ℕ, String, Option, none, some}
use smart_auth_with_kubernat.Exec.Ends.{
  Ends, ends_rules, Ends-commit, Ends-flush, Ends-modify, Ends-if, Ends-skip,
}
use smart_auth_with_kubernat.Exec.{skip}
use smart_auth_with_kubernat.Models.{User, OAuthAccount, NewUser, Assignment}
use smart_auth_with_kubernat.OAuthService.Accounts.{
  sign_in_linked, sign_up_identity, insert_identity, find_link_target, sign_in_or_up,
  get_or_create_oauth_user, add_missing, fill_avatar, link_writes, link_oauth_account_to_user,
}
use smart_auth_with_kubernat.OAuthService.Providers.{OAuthIdentity}
use smart_auth_with_kubernat.Platform.{Platform, IsDocumented}
use smart_auth_with_kubernat.Platform.Database.{Rows}
use smart_auth_with_kubernat.Repositories.{add_user, add_account, set_user}
use smart_auth_with_kubernat.Settled.{
  IsSettled, IsPending, IsSettled-IsPending, add_user-IsPending, add_account-IsPending,
  assign_user-IsPending,
}

module _ {P : Platform} (L : IsDocumented P) {before : Rows} where
  Ends-set_user :
      (u : User) (a : Assignment)
      → Ends P before (IsPending P before) (IsPending P before) (set_user {P = P} u a)
  Ends-set_user u a = Ends-modify _ (assign_user-IsPending L u.id a)

  Ends-set_user_first :
      (u : User) (a : Assignment)
      → Ends P before (IsSettled P before) (IsPending P before) (set_user {P = P} u a)
  Ends-set_user_first u a =
      Ends-modify _ (λ s h. assign_user-IsPending L u.id a s (IsSettled-IsPending h))

  Ends-add_user_row :
      (n : NewUser) → Ends P before (IsSettled P before) (IsPending P before) (add_user {P = P} n)
  unfolding add_user
  Ends-add_user_row n =
      search (ends_rules, Ends-modify, add_user-IsPending L, IsSettled-IsPending) depth 9

  Ends-add_account :
      (i : ℕ) (p s : String)
      → Ends P before (IsPending P before) (IsPending P before) (add_account {P = P} i p s)
  unfolding add_account
  Ends-add_account i p s = search (ends_rules, Ends-modify, add_account-IsPending L) depth 9

  Ends-add_account_first :
      (i : ℕ) (p s : String)
      → Ends P before (IsSettled P before) (IsPending P before) (add_account {P = P} i p s)
  unfolding add_account
  Ends-add_account_first i p s =
      search (ends_rules, Ends-modify, add_account-IsPending L, IsSettled-IsPending) depth 9

  pub Ends-sign_in_linked :
      (identity : OAuthIdentity) (a : OAuthAccount)
      → Ends P before (IsSettled P before) (IsSettled P before) (sign_in_linked {P = P} identity a)
  unfolding sign_in_linked
  Ends-sign_in_linked identity a =
      search (ends_rules, Ends-set_user, Ends-set_user_first, Ends-commit L) depth 12

  pub Ends-insert_identity :
      (provider : String) (identity : OAuthIdentity)
      → Ends P before
          (IsSettled P before)
          (IsSettled P before)
          (insert_identity {P = P} provider identity)
  unfolding insert_identity
  Ends-insert_identity provider identity =
      search (ends_rules, Ends-add_user_row, Ends-add_account, Ends-flush L, Ends-commit L) depth 12

  Ends-sign_up_identity :
      (provider : String) (identity : OAuthIdentity)
      → Ends P before
          (IsSettled P before)
          (IsSettled P before)
          (sign_up_identity {P = P} provider identity)
  unfolding sign_up_identity
  Ends-sign_up_identity provider identity = search (ends_rules, Ends-insert_identity) depth 9

  Ends-sign_in_or_up :
      (provider : String) (identity : OAuthIdentity) (o : Option OAuthAccount)
      → Ends P before
          (IsSettled P before)
          (IsSettled P before)
          (sign_in_or_up {P = P} provider identity o)
  Ends-sign_in_or_up provider identity none = Ends-sign_up_identity provider identity
  Ends-sign_in_or_up provider identity (some a) = Ends-sign_in_linked identity a

  pub Ends-get_or_create_oauth_user :
      (provider : String) (identity : OAuthIdentity)
      → Ends P before
          (IsSettled P before)
          (IsSettled P before)
          (get_or_create_oauth_user {P = P} provider identity)
  unfolding get_or_create_oauth_user
  Ends-get_or_create_oauth_user provider identity = search (ends_rules, Ends-sign_in_or_up)

  Ends-add_missing :
      (provider : String) (identity : OAuthIdentity) (user : User) (o : Option OAuthAccount)
      → Ends P before
          (IsSettled P before)
          (IsPending P before)
          (add_missing {P = P} provider identity user o)
  unfolding skip
  Ends-add_missing provider identity user none = Ends-add_account_first user.id provider _
  Ends-add_missing provider identity user (some a) = record { at = λ w h. IsSettled-IsPending h }

  Ends-fill_avatar :
      (identity : OAuthIdentity) (user : User)
      → Ends P before (IsPending P before) (IsPending P before) (fill_avatar {P = P} identity user)
  Ends-fill_avatar identity user = Ends-if _ _ _ (Ends-set_user user _) Ends-skip

  pub Ends-link_writes :
      (provider : String) (identity : OAuthIdentity) (user : User) (o : Option OAuthAccount)
      → Ends P before
          (IsSettled P before)
          (IsSettled P before)
          (link_writes {P = P} provider identity user o)
  unfolding link_writes
  Ends-link_writes provider identity user o =
      search (ends_rules, Ends-add_missing, Ends-fill_avatar, Ends-set_user, Ends-commit L) depth 9

  pub Ends-find_link_target :
      (provider : String) (identity : OAuthIdentity) (user_id : Option String)
      → Ends P before
          (IsSettled P before)
          (IsSettled P before)
          (find_link_target {P = P} provider identity user_id)
  unfolding find_link_target
  Ends-find_link_target provider identity user_id = search ends_rules depth 20

  pub Ends-link_oauth_account_to_user :
      (provider : String) (identity : OAuthIdentity) (user_id : Option String)
      → Ends P before
          (IsSettled P before)
          (IsSettled P before)
          (link_oauth_account_to_user {P = P} provider identity user_id)
  unfolding link_oauth_account_to_user
  Ends-link_oauth_account_to_user provider identity user_id =
      search (ends_rules, Ends-find_link_target, Ends-link_writes)
