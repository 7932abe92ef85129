-- ===== src/AuthService/Unreadable.antt =====
-- A token pair for a user whose e-mail the answer cannot carry.
use smart_auth_with_kubernat.Prelude.{◌≡◌, refl, ◌∙◌, false, none, ◌∷◌}
use smart_auth_with_kubernat.AuthService.{issue_token_pair}
use smart_auth_with_kubernat.AuthService.Issue.{issued_record}
use smart_auth_with_kubernat.Config.{Settings}
use smart_auth_with_kubernat.Exec.{err, exception, commit, draw, now, ◌>>=◌}
use smart_auth_with_kubernat.Models.{User}
use smart_auth_with_kubernat.Platform.{Platform, IsDocumented, World}
use smart_auth_with_kubernat.Repositories.{add_token}
use smart_auth_with_kubernat.Security.{create_access_token, create_refresh_token}

module _ {P : Platform} (L : IsDocumented P) (settings : Settings) where
  -- Where Pydantic refuses the e-mail of a user, and the database does not refuse the new record of a
  -- refresh token, the issue of a pair raises an exception that is no HTTP error, but only after the
  -- record has been committed: the tables have it, and are otherwise as they were.
  pub issue-unreadable :
      (user : User) (w : World P)
      → P.email_str user.email ≡ none
      → P.rejects (P.add_token (issued_record settings user w) w.session) ≡ false
      → let (result, w') = issue_token_pair settings user w in
        let rows = P.rows w.session in
        (result ≡ err (exception "ValidationError"))
        × (P.saved w'.session
            ≡ record rows { tokens = issued_record settings user w ∷ rows.tokens })
  unfolding issue_token_pair create_access_token create_refresh_token add_token commit now draw
      ◌>>=◌
  issue-unreadable user w refused accepted =
      let t = issued_record settings user w in
      rw (accepted, refused)
        (refl, L.saved-commit (P.add_token t w.session) ∙ L.rows-add_token t w.session)
