-- ===== src/Settled.antt =====
-- A session between two calls of a service: it has no pending rows, and what is committed has come
-- from the rows `before` by changes that keep the constraints of the tables.
use smart_auth_with_kubernat.Prelude.{ℕ, ◌≡◌, sym, ◌∙◌, inl, inr, false, arith, Bool-cases}
use smart_auth_with_kubernat.Constraints.{
  Changes, next, new_user, new_account, new_token, assigned, token_revoked,
}
use smart_auth_with_kubernat.Exec.{commit}
use smart_auth_with_kubernat.Models.{User, OAuthAccount, RefreshToken, Assignment}
use smart_auth_with_kubernat.Platform.{Platform, IsDocumented, World}
use smart_auth_with_kubernat.Platform.Database.{Rows}

module _ (P : Platform) (before : Rows) where
  -- What holds while rows are pending: the committed rows have come from those before, and so
  -- have the rows of the session unless the next flush refuses them.
  pub record IsPending (s : P.Session) : Type 0 where
    pub kept : Changes before (P.saved s)
    pub accepted : P.rejects s ≡ false → Changes before (P.rows s)

  pub record IsSettled (s : P.Session) : Type 0 where
    pub reached : Changes before (P.rows s)
    pub committed : P.saved s ≡ P.rows s
    pub accepted : P.rejects s ≡ false

module _ {P : Platform} {before : Rows} where
  pub IsSettled-IsPending : {s : P.Session} → IsSettled P before s → IsPending P before s
  IsSettled-IsPending h = record { kept = rw h.committed h.reached; accepted = λ _. h.reached }

module _ {P : Platform} (L : IsDocumented P) {before : Rows} where
  pub rollback-IsSettled :
      (s : P.Session) → IsPending P before s → IsSettled P before (P.rollback s)
  rollback-IsSettled s h = record {
    reached = rw (L.rows-rollback s) h.kept;
    committed = L.saved-rollback s ∙ sym (L.rows-rollback s);
    accepted = L.rejects-rollback s;
  }

  -- A commit settles the session, whether it is accepted or refused.
  pub commit-IsSettled :
      (w : World P) → IsPending P before w.session → IsSettled P before (commit w).1.session
  unfolding commit
  commit-IsSettled w h = elim (Bool-cases (P.rejects w.session)) [
    | inl refused ↦ rw refused (rollback-IsSettled w.session h)
    | inr accepted ↦ rw accepted (record {
      reached = rw (L.rows-commit w.session) (h.accepted accepted);
      committed = L.saved-commit w.session ∙ sym (L.rows-commit w.session);
      accepted = L.rejects-commit w.session ∙ accepted;
    })
  ]

  -- An accepted flush keeps what is pending in the transaction.
  pub flush-IsPending : (s : P.Session) → IsPending P before s → IsPending P before (P.flush s)
  flush-IsPending s h = record {
    kept = rw (L.saved-flush s) h.kept;
    accepted = λ e. rw (L.rows-flush s) (h.accepted (sym (L.rejects-flush s) ∙ e));
  }

  pub add_user-IsPending :
      (u : User) (s : P.Session) → IsPending P before s → IsPending P before (P.add_user u s)
  add_user-IsPending u s h = record {
    kept = rw (L.saved-add_user u s) h.kept;
    accepted = λ e. rw (L.rows-add_user u s) (
        next (h.accepted (ground (arith, L.rejects-add_user u s)))
          (new_user u (ground (arith, L.rejects-add_user u s))));
  }

  pub add_account-IsPending :
      (a : OAuthAccount) (s : P.Session)
      → IsPending P before s
      → IsPending P before (P.add_account a s)
  add_account-IsPending a s h = record {
    kept = rw (L.saved-add_account a s) h.kept;
    accepted = λ e. rw (L.rows-add_account a s) (
        next (h.accepted (ground (arith, L.rejects-add_account a s))) (
          new_account a (ground (arith, L.rejects-add_account a s))
            (ground (arith, L.rejects-add_account a s))));
  }

  pub add_token-IsPending :
      (t : RefreshToken) (s : P.Session)
      → IsPending P before s
      → IsPending P before (P.add_token t s)
  add_token-IsPending t s h = record {
    kept = rw (L.saved-add_token t s) h.kept;
    accepted = λ e. rw (L.rows-add_token t s) (
        next (h.accepted (ground (arith, L.rejects-add_token t s))) (
          new_token t (ground (arith, L.rejects-add_token t s))
            (ground (arith, L.rejects-add_token t s))));
  }

  pub assign_user-IsPending :
      (i : ℕ) (a : Assignment) (s : P.Session)
      → IsPending P before s
      → IsPending P before (P.assign_user i a s)
  assign_user-IsPending i a s h = record {
    kept = rw (L.saved-assign_user i a s) h.kept;
    accepted = λ e. rw (L.rows-assign_user i a s) (
        next (h.accepted (ground (arith, L.rejects-assign_user i a s)))
          (assigned i (P.server_now s) a));
  }

  pub assign_revoked_at-IsPending :
      (i now : ℕ) (s : P.Session)
      → IsPending P before s
      → IsPending P before (P.assign_revoked_at i now s)
  assign_revoked_at-IsPending i now s h = record {
    kept = rw (L.saved-assign_revoked_at i now s) h.kept;
    accepted = λ e. rw (L.rows-assign_revoked_at i now s) (
        next (h.accepted (ground (arith, L.rejects-assign_revoked_at i now s)))
          (token_revoked i now));
  }
