-- ===== src/Interleaving/Invariant.antt =====
-- However requests interleave, the tables keep their constraints.
use smart_auth_with_kubernat.Prelude.{
  ℕ, zero, suc, false, String, Option, none, some, List, [], ◌∷◌, map, ◌≡◌,
}
use smart_auth_with_kubernat.AuthService.Invariant.{
  Ends-insert_user, Ends-revoke_now, Ends-revoke_found, Ends-find_refresh_record,
  Ends-authenticate_user, Ends-issue_token_pair, Ends-check_refresh_token,
}
use smart_auth_with_kubernat.Config.{Settings}
use smart_auth_with_kubernat.Constraints.{IsConsistent, Changes, here, Changes-IsConsistent}
use smart_auth_with_kubernat.Exec.{Exec, Result, ok, err}
use smart_auth_with_kubernat.Exec.Ends.{Ends, Ends-settles, ends_rules}
use smart_auth_with_kubernat.Interleaving.{
  Task, finished, stage, close, resume, after, issue, sign_in, task_after_limit, task_of, step,
  turn, run,
}
use smart_auth_with_kubernat.Models.{OAuthAccount, User}
use smart_auth_with_kubernat.OAuthService.{OAuthIdentity}
use smart_auth_with_kubernat.OAuthService.Exchange.{Ends-exchange_code_for_identity}
use smart_auth_with_kubernat.OAuthService.Invariant.{
  Ends-sign_in_linked, Ends-insert_identity, Ends-find_link_target, Ends-link_writes,
}
use smart_auth_with_kubernat.Platform.{Platform, IsDocumented, World}
use smart_auth_with_kubernat.Platform.Database.{Rows}
use smart_auth_with_kubernat.RateLimiter.{Request}
use smart_auth_with_kubernat.Routes.{Call, post_register, get_me, Response, exchange}
use smart_auth_with_kubernat.Routes.Invariant.{
  Ends-auth_limit, Ends-me, Ends-oauth_login, Ends-oauth_link,
}
use smart_auth_with_kubernat.Settled.{IsSettled, IsSettled-IsPending, rollback-IsSettled}

-- every turn of the task leaves the session settled
data Settles (P : Platform) (before : Rows) : Task P → Type 0 where
  ended : (r : Result Response) → Settles P before (finished r)
  staged :
      (f : World P → World P) (k : World P → Task P)
      → ((w : World P) → IsSettled P before w.session → IsSettled P before (f w).session)
      → ((w : World P) → Settles P before (k w))
      → Settles P before (stage f k)

data AllSettle (P : Platform) (before : Rows) : List (Task P) → Type 0 where
  none_left : AllSettle P before []
  one_more :
      (t : Task P) (ts : List (Task P))
      → Settles P before t
      → AllSettle P before ts
      → AllSettle P before (t ∷ ts)

module _ {P : Platform} (L : IsDocumented P) {before : Rows} where
  Settles-close : (r : Result Response) → Settles P before (close r)
  Settles-close r =
      staged _ _ (λ w h. rollback-IsSettled L w.session (IsSettled-IsPending h)) (λ w. ended r)

module _ {P : Platform} (L : IsDocumented P) {before : Rows} {A : Type 0} where
  Settles-resume :
      (r : Result A) (k : A → Task P)
      → ((a : A) → Settles P before (k a))
      → Settles P before (resume r k)
  Settles-resume (ok a) k h = h a
  Settles-resume (err e) k h = Settles-close L (err e)

  Settles-after :
      (m : Exec P A) (k : A → Task P)
      → Ends P before (IsSettled P before) (IsSettled P before) m
      → ((a : A) → Settles P before (k a))
      → Settles P before (after m k)
  Settles-after m k ends h =
      staged _ _ (λ w settled. Ends-settles m w ends settled) (λ w. Settles-resume (m w).0 k h)

module _ {P : Platform} (L : IsDocumented P) (settings : Settings) {before : Rows} where
  Settles-issue : (user : User) → Settles P before (issue settings user)
  Settles-issue user = search (Settles-after L, Settles-close L, Ends-issue_token_pair L)

  Settles-sign_in :
      (provider : String) (identity : OAuthIdentity) (found : Option OAuthAccount)
      → Settles P before (sign_in settings provider identity found)
  Settles-sign_in provider identity (some a) =
      search (Settles-after L, Settles-issue, Ends-sign_in_linked L)
  Settles-sign_in provider identity none =
      search (Settles-after L, Settles-issue, ends_rules, Ends-insert_identity L) depth 9

  Ends-exchange :
      (provider code state flow : String)
      → Ends P before
          (IsSettled P before)
          (IsSettled P before)
          (exchange {P = P} settings provider code state flow)
  Ends-exchange provider code state flow =
      search (ends_rules, Ends-exchange_code_for_identity settings) depth 9

  ruleset turn_rules = (
    Settles-after, Settles-close, Settles-issue, Settles-sign_in, ends_rules, Ends-insert_user,
    Ends-authenticate_user, Ends-check_refresh_token, Ends-revoke_now, Ends-find_refresh_record,
    Ends-revoke_found, Ends-me, Ends-oauth_login, Ends-oauth_link, Ends-exchange,
    Ends-find_link_target, Ends-link_writes,
  )

  Settles-task_after_limit :
      (call : Call) → Settles P before (task_after_limit {P = P} settings call)
  Settles-task_after_limit (post_register payload) = search (turn_rules, L) depth 12
  Settles-task_after_limit call = search (turn_rules, L) depth 12

  Settles-task_of : (request : Request × Call) → Settles P before (task_of settings request)
  unfolding task_of
  Settles-task_of (request, get_me credentials) = Settles-task_after_limit (get_me credentials)
  Settles-task_of (request, call) =
      Settles-after L _ _ (Ends-auth_limit settings request) (λ _. Settles-task_after_limit call)

  AllSettle-tasks :
      (requests : List (Request × Call)) → AllSettle P before (map (task_of settings) requests)
  AllSettle-tasks [] = none_left
  AllSettle-tasks (request ∷ requests) =
      one_more _ _ (Settles-task_of request) (AllSettle-tasks requests)

module _ {P : Platform} {before : Rows} where
  step-Settles :
      (t : Task P) (w : World P)
      → Settles P before t
      → IsSettled P before w.session
      → Settles P before (step t w).0 × IsSettled P before (step t w).1.session
  unfolding step
  step-Settles _ w (ended r) settled = (ended r, settled)
  step-Settles _ w (staged f k keeps rest) settled = (rest w, keeps w settled)

  turn-AllSettle :
      (n : ℕ) (ts : List (Task P)) (w : World P)
      → AllSettle P before ts
      → IsSettled P before w.session
      → AllSettle P before (turn n ts w).0 × IsSettled P before (turn n ts w).1.session
  unfolding turn
  turn-AllSettle n _ w none_left settled = (none_left, settled)
  turn-AllSettle zero _ w (one_more t ts h hs) settled =
      let (h', settled') = step-Settles t w h settled in (one_more _ ts h' hs, settled')
  turn-AllSettle (suc n) _ w (one_more t ts h hs) settled =
      let (hs', settled') = turn-AllSettle n ts w hs settled in (one_more t _ h hs', settled')

  run-IsSettled :
      (schedule : List ℕ) (ts : List (Task P)) (w : World P)
      → AllSettle P before ts
      → IsSettled P before w.session
      → IsSettled P before (run schedule ts w).1.session
  unfolding run
  run-IsSettled [] ts w h settled = settled
  run-IsSettled (n ∷ schedule) ts w h settled =
      let (h', settled') = turn-AllSettle n ts w h settled in run-IsSettled schedule _ _ h' settled'

module _ {P : Platform} (L : IsDocumented P) (settings : Settings) where
  -- From tables that meet their constraints, with everything committed and nothing for the next flush
  -- to refuse: in whatever order requests take their turns, and wherever they stop, the tables meet
  -- their constraints, have changed by the abstract steps alone, and are committed.
  pub interleaved-IsConsistent :
      (requests : List (Request × Call)) (schedule : List ℕ) (w : World P)
      → IsConsistent (P.rows w.session)
      → P.saved w.session ≡ P.rows w.session
      → P.rejects w.session ≡ false
      → let s = (run schedule (map (task_of settings) requests) w).1.session in
        IsConsistent (P.rows s) × Changes (P.rows w.session) (P.rows s) × (P.saved s ≡ P.rows s)
  interleaved-IsConsistent requests schedule w consistent committed accepted =
      let h =
        run-IsSettled schedule _ w (AllSettle-tasks L settings requests)
          (record { reached = here; committed = committed; accepted = accepted }) in
      (Changes-IsConsistent h.reached consistent, h.reached, h.committed)
