-- ===== src/Migrations/Environment/Transaction.antt =====
-- How the transaction of the revisions ends.
use smart_auth_with_kubernat.Prelude.{Option, none, some, ◌≡◌, refl, sym, ap, ◌∙◌}
use smart_auth_with_kubernat.Exec.{ok, err, Failure}
use smart_auth_with_kubernat.Migrations.Environment.{do_run_migrations}
use smart_auth_with_kubernat.Platform.Alembic.{Alembic, IsAlembic}
use smart_auth_with_kubernat.Platform.Ddl.{Ddl}

module _ {D : Ddl} {E : Alembic D} (A : IsAlembic E) (revisions : D.State → Option D.State) where
  abbrev begun : D.State → E.Connection
  begun s = E.begin_transaction (E.connect s)

  working-begun : (s : D.State) → E.working (begun s) ≡ s
  working-begun s = A.working-begin_transaction (E.connect s) ∙ A.working-connect s

  -- Revisions that succeed are committed.
  pub do_run_migrations-some :
      (s s' : D.State)
      → revisions s ≡ some s'
      → let (result, c) = do_run_migrations E revisions (E.connect s) in
        (result ≡ ok tt) × (E.committed c ≡ s')
  unfolding do_run_migrations
  do_run_migrations-some s s' done =
      let (c, ran, seen) =
        A.run_migrations-some revisions (begun s) s' (ap revisions (working-begun s) ∙ done) in
      rw ran (refl, A.committed-commit c ∙ seen)

  -- Of revisions that are refused nothing is.
  pub do_run_migrations-none :
      (s : D.State)
      → revisions s ≡ none
      → let (result, c) = do_run_migrations E revisions (E.connect s) in
        ((e : Failure) × (result ≡ err e)) × (E.committed c ≡ s)
  unfolding do_run_migrations
  do_run_migrations-none s refused =
      let (e, c, ran) =
        A.run_migrations-none revisions (begun s) (ap revisions (working-begun s) ∙ refused) in
      let kept =
        A.committed-run_migrations revisions (begun s)
          (A.in_transaction-begin_transaction (E.connect s)) in
      rw ran (
        (e, refl),
        A.committed-rollback c
            ∙ sym (ap (λ (r : _). E.committed r.1) ran)
            ∙ kept
            ∙ A.committed-begin_transaction (E.connect s)
            ∙ A.committed-connect s,
      )
