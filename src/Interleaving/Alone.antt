-- ===== src/Interleaving/Alone.antt =====
-- A request that is alone is served as its handler says: the turns are those of the handler.
use smart_auth_with_kubernat.Prelude.{◌≡◌, refl, sym, ap, ◌∙◌, String, Option, none, some}
use smart_auth_with_kubernat.AuthService.{
  register_user, logout_refresh_token, refresh_access_pair, rotate_refresh_token, issue_token_pair,
}
use smart_auth_with_kubernat.Config.{Settings}
use smart_auth_with_kubernat.Deps.{in_session}
use smart_auth_with_kubernat.Exec.{Exec, Result, ok, err, pure, continue, ◌>>=◌}
use smart_auth_with_kubernat.Exec.Inversion.{bind_assoc}
use smart_auth_with_kubernat.Interleaving.{Task, close, resume, after, sign_in, task_of, run_alone}
use smart_auth_with_kubernat.OAuthService.{
  OAuthIdentity, sign_in_or_up, sign_up_identity, get_or_create_oauth_user,
  link_oauth_account_to_user,
}
use smart_auth_with_kubernat.Models.{OAuthAccount}
use smart_auth_with_kubernat.Platform.{Platform, World}
use smart_auth_with_kubernat.RateLimiter.{Request}
use smart_auth_with_kubernat.Routes.{
  Call, post_register, post_login, post_refresh, post_logout, get_me, get_oauth_login,
  get_oauth_link, get_oauth_callback, get_oauth_link_callback, Response, tokens, handle, serve,
  register, login, oauth_callback, oauth_link_callback,
}

-- the task does what the coroutine does, in a session of its own
record Runs {P : Platform} (t : Task P) (m : Exec P Response) : Type 0 where
  same : (w : World P) → run_alone t w ≡ in_session m w

module _ {P : Platform} where
  Runs-close : (r : Response) → Runs {P = P} (close (ok r)) (pure r)
  unfolding run_alone in_session pure
  Runs-close r = record { same = λ w. refl }

module _ {P : Platform} {A : Type 0} where
  resume-Runs :
      (r : Result A) (w : World P) (k : A → Task P) (f : A → Exec P Response)
      → ((a : A) → Runs (k a) (f a))
      → run_alone (resume r k) w ≡ in_session (λ (_ : World P). continue (r, w) f) w
  unfolding run_alone in_session
  resume-Runs (ok a) w k f h = (h a).same w
  resume-Runs (err e) w k f h = refl

  Runs-after :
      (m : Exec P A) (k : A → Task P) (f : A → Exec P Response)
      → ((a : A) → Runs (k a) (f a))
      → Runs (after m k) (m >>= f)
  unfolding run_alone in_session ◌>>=◌
  Runs-after m k f h = record { same = λ w. resume-Runs (m w).0 (m w).1 k f h }

module _ {P : Platform} where
  in_session-congr :
      (m n : Exec P Response) (w : World P) → m w ≡ n w → in_session m w ≡ in_session n w
  unfolding in_session
  in_session-congr m n w h =
      ap (λ (x : Result Response × World P). (x.0, record x.1 { session = P.rollback x.1.session }))
        h

module _ {P : Platform} {A B : Type 0} where
  Runs-assoc :
      (t : Task P) (m : Exec P A) (f : A → Exec P B) (g : B → Exec P Response)
      → Runs t (m >>= λ a. f a >>= g)
      → Runs t ((m >>= f) >>= g)
  Runs-assoc t m f g h = record {
    same = λ w. h.same w ∙ in_session-congr _ _ w (sym (bind_assoc m f g w));
  }

module _ {P : Platform} {A : Type 0} where
  Runs-pure : (t : Task P) (a : A) (f : A → Exec P Response) → Runs t (f a) → Runs t (pure a >>= f)
  unfolding ◌>>=◌ in_session
  Runs-pure t a f h = record { same = λ w. h.same w }

ruleset runs_rules = (Runs-close, Runs-after, Runs-assoc, Runs-pure)

module _ {P : Platform} (settings : Settings) where
  Runs-sign_in :
      (provider : String) (identity : OAuthIdentity) (found : Option OAuthAccount)
      → Runs {P = P} (sign_in settings provider identity found) (
          sign_in_or_up provider identity found >>= λ user.
          issue_token_pair settings user >>= λ r. pure (tokens r))
  unfolding sign_up_identity
  Runs-sign_in provider identity (some oauth_account) = search runs_rules
  Runs-sign_in provider identity none = search runs_rules

  Runs-task_of :
      (request : Request) (call : Call)
      → Runs {P = P} (task_of settings (request, call)) (handle settings request call)
  unfolding task_of handle register login register_user refresh_access_pair rotate_refresh_token
      logout_refresh_token oauth_callback oauth_link_callback get_or_create_oauth_user
      link_oauth_account_to_user
  Runs-task_of request (post_register payload) = search runs_rules depth 14
  Runs-task_of request (post_login payload) = search runs_rules depth 14
  Runs-task_of request (post_refresh token) = search runs_rules depth 14
  Runs-task_of request (post_logout token) = search runs_rules depth 14
  Runs-task_of request (get_me credentials) = search runs_rules
  Runs-task_of request (get_oauth_login provider) = search runs_rules
  Runs-task_of request (get_oauth_link provider credentials) = search runs_rules
  Runs-task_of request (get_oauth_callback provider code state) =
      search (runs_rules, Runs-sign_in) depth 14
  Runs-task_of request (get_oauth_link_callback provider code state) = search runs_rules depth 14

  -- A request that has all its turns in a row ends and leaves the world as its handler does, whatever
  -- the route.
  pub run_alone-eq-serve :
      (request : Request) (call : Call) (w : World P)
      → run_alone (task_of settings (request, call)) w ≡ serve settings request call w
  run_alone-eq-serve request call w = (Runs-task_of request call).same w
