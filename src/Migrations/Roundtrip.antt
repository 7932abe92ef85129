-- ===== src/Migrations/Roundtrip.antt =====
-- The downgrade of the migration, and what it leaves.
use smart_auth_with_kubernat.Prelude.{
  String, ◌≡◌, refl, ap, ◌∙◌, Bool, false, Option, none, some, List, [], ◌∷◌, ◌++◌, arith, is_some,
}
use smart_auth_with_kubernat.Prelude.Rows.{find?, update}
use smart_auth_with_kubernat.Platform.Ddl.{
  Table, Ddl, IsDdl, named, remove, add_index, without_index, refers_to,
}
use smart_auth_with_kubernat.Migrations.{
  users_table, oauth_accounts_table, refresh_tokens_table, ix_users_email, ix_refresh_tokens_jti,
  upgrade, downgrade, ◌>>=◌,
}

update_absent {ℓ} :
    {A : Type ℓ} (p : A → Bool) (f : A → A) (l : List A)
    → is_some (find? p l) ≡ false
    → update p f l ≡ l
update_absent p f [] h = refl
update_absent p f (x ∷ l) h = ground (arith, update_absent p f l)

remove_absent {ℓ} :
    {A : Type ℓ} (p : A → Bool) (l : List A) → is_some (find? p l) ≡ false → remove p l ≡ l
remove_absent p [] h = refl
remove_absent p (x ∷ l) h = ground (arith, remove_absent p l)

-- A sequence that succeeded had a first step that did.
first_step :
    {State : Type 0} (done : Option State) (rest : State → Option State) (s' : State)
    → (done >>= rest) ≡ some s'
    → (s : State) × (done ≡ some s) × (rest s ≡ some s')
first_step none rest s' h = ground arith
first_step (some s) rest s' h = (s, refl, h)

-- The tables that foreign keys refer to are there.
abbrev pub HasReferents : List Table → Type 0
HasReferents l =
    (name : String)
    → is_some (find? (named name) l) ≡ false
    → is_some (find? (refers_to name) l) ≡ false

abbrev pub created : List Table
created =
    add_index ix_refresh_tokens_jti refresh_tokens_table
    ∷ oauth_accounts_table
    ∷ add_index ix_users_email users_table
    ∷ []

module _ {D : Ddl} (L : IsDdl D) where
  abbrev pub Absent : String → D.State → Type 0
  Absent name s = is_some (find? (named name) (D.tables s)) ≡ false

  pub tables-upgrade :
      (s s' : D.State)
      → upgrade D s ≡ some s'
      → Absent "users" s
        × Absent "oauth_accounts" s
        × Absent "refresh_tokens" s
        × (D.tables s' ≡ created ++ D.tables s)
  unfolding upgrade
  tables-upgrade s s' h =
      let (s1, e1, h1) = first_step (D.create_table users_table s) _ s' h in
      let (s2, e2, h2) = first_step (D.create_index ix_users_email "users" s1) _ s' h1 in
      let (s3, e3, h3) = first_step (D.create_table oauth_accounts_table s2) _ s' h2 in
      let (s4, e4, e5) = first_step (D.create_table refresh_tokens_table s3) _ s' h3 in
      let no_users = L.find?-create_table users_table s s1 e1 in
      let t1 = L.tables-create_table users_table s s1 e1 in
      let t2 : D.tables s2 ≡ add_index ix_users_email users_table ∷ D.tables s =
        rw (L.tables-create_index ix_users_email "users" s1 s2 e2, t1)
          (ap (λ l. add_index ix_users_email users_table ∷ l)
            (update_absent (named "users") (add_index ix_users_email) (D.tables s) no_users)) in
      let no_accounts : Absent "oauth_accounts" s =
        rw t2 at (L.find?-create_table oauth_accounts_table s2 s3 e3) in
      let t3 : D.tables s3
          ≡ oauth_accounts_table ∷ add_index ix_users_email users_table ∷ D.tables s =
        L.tables-create_table oauth_accounts_table s2 s3 e3
        ∙ ap (λ l. oauth_accounts_table ∷ l) t2 in
      let no_tokens : Absent "refresh_tokens" s =
        rw t3 at (L.find?-create_table refresh_tokens_table s3 s4 e4) in
      let t4 = L.tables-create_table refresh_tokens_table s3 s4 e4 in
      (
        no_users,
        no_accounts,
        no_tokens,
        rw (L.tables-create_index ix_refresh_tokens_jti "refresh_tokens" s4 s' e5, t4, t3)
            (ap (λ l. created ++ l)
              (update_absent (named "refresh_tokens") (add_index ix_refresh_tokens_jti) (D.tables s)
                no_tokens)),
      )

  -- The downgrade of a database that holds the tables of the upgrade before others.
  downgrade-created :
      (s s' : D.State)
      → HasReferents (D.tables s)
      → Absent "users" s
      → Absent "oauth_accounts" s
      → Absent "refresh_tokens" s
      → D.tables s' ≡ created ++ D.tables s
      → (s'' : D.State) × (downgrade D s' ≡ some s'') × (D.tables s'' ≡ D.tables s)
  unfolding downgrade
  downgrade-created s s' referents no_users no_accounts no_tokens t =
      let l = D.tables s in
      let users = add_index ix_users_email users_table in
      let (s1, e1, t1) = L.drop_index_lem "ix_refresh_tokens_jti" "refresh_tokens" s' (rw t refl) in
      let t1' : D.tables s1 ≡ refresh_tokens_table ∷ oauth_accounts_table ∷ users ∷ l =
        rw
          (
            t1,
            t,
            update_absent (named "refresh_tokens") (without_index "ix_refresh_tokens_jti") l
                no_tokens,
          )
          refl in
      let (s2, e2, t2) = L.drop_table_lem "refresh_tokens" s1 (rw t1' refl) (
        rw (t1', remove_absent (named "refresh_tokens") l no_tokens)
          (referents "refresh_tokens" no_tokens)) in
      let t2' : D.tables s2 ≡ oauth_accounts_table ∷ users ∷ l =
        rw (t2, t1', remove_absent (named "refresh_tokens") l no_tokens) refl in
      let (s3, e3, t3) = L.drop_table_lem "oauth_accounts" s2 (rw t2' refl) (
        rw (t2', remove_absent (named "oauth_accounts") l no_accounts)
          (referents "oauth_accounts" no_accounts)) in
      let t3' : D.tables s3 ≡ users ∷ l =
        rw (t3, t2', remove_absent (named "oauth_accounts") l no_accounts) refl in
      let (s4, e4, t4) = L.drop_index_lem "ix_users_email" "users" s3 (rw t3' refl) in
      let t4' : D.tables s4 ≡ users_table ∷ l =
        rw (t4, t3', update_absent (named "users") (without_index "ix_users_email") l no_users)
          refl in
      let (s5, e5, t5) =
        L.drop_table_lem "users" s4 (rw t4' refl)
          (rw (t4', remove_absent (named "users") l no_users) (referents "users" no_users)) in
      (s5, rw (e1, e2, e3, e4) e5, rw (t5, t4') (remove_absent (named "users") l no_users))

  -- Where what the foreign keys refer to is there and the migration succeeds, it adds its three
  -- tables with their indexes to those that were there. The downgrade then succeeds, and leaves those that were there.
  pub upgrade-downgrade :
      (s s' : D.State)
      → HasReferents (D.tables s)
      → upgrade D s ≡ some s'
      → (D.tables s' ≡ created ++ D.tables s)
        × ((s'' : D.State) × (downgrade D s' ≡ some s'') × (D.tables s'' ≡ D.tables s))
  upgrade-downgrade s s' referents h =
      let (no_users, no_accounts, no_tokens, t) = tables-upgrade s s' h in
      (t, downgrade-created s s' referents no_users no_accounts no_tokens t)
