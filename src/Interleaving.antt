-- ===== src/Interleaving.antt =====
-- Requests whose handlers take turns. A handler of app/api/v1/auth.py runs from one `await` to a
-- later one and lets others run between; here a turn is a run of reads, the writes up to their
-- commit, or an exchange with a provider. Between two turns a request has nothing pending, so all see what is committed.
pub mod Alone
pub mod Invariant
pub mod Registrations
pub mod Refreshes
use smart_auth_with_kubernat.Prelude.{
  ℕ, zero, suc, String, Bool, true, false, Option, none, some, List, [], ◌∷◌, not, if◌then◌else◌,
}
use smart_auth_with_kubernat.Prelude.Texts.{lower}
use smart_auth_with_kubernat.AuthService.{
  check_email, insert_user, authenticate_user, issue_token_pair, check_refresh_token, revoke_now,
  revoke_found, find_refresh_record,
}
use smart_auth_with_kubernat.Config.{Settings}
use smart_auth_with_kubernat.Exec.{Exec, Result, ok, err}
use smart_auth_with_kubernat.Models.{User, OAuthAccount}
use smart_auth_with_kubernat.OAuthService.{
  OAuthIdentity, sign_in_linked, check_new_email, insert_identity, find_link_target, link_writes,
}
use smart_auth_with_kubernat.Platform.{Platform, World}
use smart_auth_with_kubernat.RateLimiter.{Request}
use smart_auth_with_kubernat.Repositories.{get_by_provider_identity}
use smart_auth_with_kubernat.Routes.{
  Call, post_register, post_login, post_refresh, post_logout, get_me, get_oauth_login,
  get_oauth_link, get_oauth_callback, get_oauth_link_callback, Response, tokens, profile, started,
  linked, no_content, auth_limit, me, oauth_login, oauth_link, exchange, link_response,
}

-- a request on its way: its next turn changes the world, and says by it what is left to do
pub data Task (P : Platform) : Type 0 where
  finished : Result Response → Task P
  stage : (World P → World P) → (World P → Task P) → Task P

module _ {P : Platform} where
  -- the last turn: the session is closed, and the request is answered
  abbrev pub close : Result Response → Task P
  close r = stage (λ w. record w { session = P.rollback w.session }) (λ w. finished r)

module _ {P : Platform} {A : Type 0} where
  abbrev pub resume : Result A → (A → Task P) → Task P
  resume (ok a) k = k a
  resume (err e) k = close (err e)

  -- a turn, and what follows it unless it raises
  abbrev pub after : Exec P A → (A → Task P) → Task P
  after m k = stage (λ w. (m w).1) (λ w. resume (m w).0 k)

-- `/me` has no limit
abbrev pub is_limited : Call → Bool
is_limited (get_me credentials) = false
is_limited call = true

module _ {P : Platform} (settings : Settings) where
  abbrev pub issue : User → Task P
  issue user = after (issue_token_pair settings user) λ r. close (ok (tokens r))

  abbrev pub sign_in : String → OAuthIdentity → Option OAuthAccount → Task P
  sign_in provider identity (some oauth_account) =
      after (sign_in_linked identity oauth_account) issue
  sign_in provider identity none =
      after (check_new_email identity) λ _. after (insert_identity provider identity) issue

  -- what the handler of a call has to do after its limit, turn by turn
  abbrev pub task_after_limit : Call → Task P
  task_after_limit (post_register payload) =
      after (check_email (lower payload.email)) λ _. after (insert_user payload) issue
  task_after_limit (post_login payload) =
      after (authenticate_user payload.email payload.password) issue
  task_after_limit (post_refresh refresh_token) =
      after (check_refresh_token settings refresh_token)
        λ (refresh_record, user). after (revoke_now refresh_record) λ _. issue user
  task_after_limit (post_logout refresh_token) =
      after (find_refresh_record settings refresh_token)
        λ refresh_record. after (revoke_found refresh_record) λ _. close (ok no_content)
  task_after_limit (get_me credentials) =
      after (me settings credentials) λ r. close (ok (profile r))
  task_after_limit (get_oauth_login provider) =
      after (oauth_login settings provider) λ r. close (ok (started r))
  task_after_limit (get_oauth_link provider credentials) =
      after (oauth_link settings provider credentials) λ r. close (ok (started r))
  task_after_limit (get_oauth_callback provider code state) =
      after (exchange settings provider code state "login") λ (identity, _).
        after (get_by_provider_identity provider identity.provider_user_id)
          λ oauth_account. sign_in provider identity oauth_account
  task_after_limit (get_oauth_link_callback provider code state) =
      after (exchange settings provider code state "link") λ (identity, state_payload).
        after (find_link_target provider identity state_payload.user_id) λ (user, oauth_account).
          after (link_writes provider identity user oauth_account)
            λ u. after (link_response provider u) λ r. close (ok (linked r))

  unfoldable pub task_of : Request × Call → Task P
  task_of (request, call) =
      if is_limited call
      then after (auth_limit settings request) (λ _. task_after_limit call)
      else task_after_limit call

module _ {P : Platform} where
  unfoldable pub step : Task P → World P → Task P × World P
  step (finished r) w = (finished r, w)
  step (stage f k) w = (k w, f w)

  -- the turn of the n-th request
  unfoldable pub turn : ℕ → List (Task P) → World P → List (Task P) × World P
  unfolding step
  turn n [] w = ([], w)
  turn zero (t ∷ ts) w = let (t', w') = step t w in (t' ∷ ts, w')
  turn (suc n) (t ∷ ts) w = let (ts', w') = turn n ts w in (t ∷ ts', w')

  -- the turns in the order of a schedule
  unfoldable pub run : List ℕ → List (Task P) → World P → List (Task P) × World P
  unfolding turn
  run [] ts w = (ts, w)
  run (n ∷ schedule) ts w = let (ts', w') = turn n ts w in run schedule ts' w'

  -- a request that has every turn to itself
  unfoldable pub run_alone : Task P → World P → Result Response × World P
  run_alone (finished r) w = (r, w)
  run_alone (stage f k) w = run_alone (k w) (f w)
