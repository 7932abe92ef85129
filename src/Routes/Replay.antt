-- ===== src/Routes/Replay.antt =====
-- The routes against a stolen refresh token: it is good for one answer.
use smart_auth_with_kubernat.Prelude.{String, ◌≡◌, ◌≢◌, sym, ap, ◌∙◌, subst, List, false, arith}
use smart_auth_with_kubernat.AuthService.{refresh_access_pair}
use smart_auth_with_kubernat.AuthService.Invariant.{Ends-refresh_access_pair}
use smart_auth_with_kubernat.AuthService.Rotation.{refresh_once}
use smart_auth_with_kubernat.Config.{Settings}
use smart_auth_with_kubernat.Constraints.{here}
use smart_auth_with_kubernat.Deps.{in_session}
use smart_auth_with_kubernat.Exec.{Exec, ok}
use smart_auth_with_kubernat.Exec.Ends.{Ends-settles}
use smart_auth_with_kubernat.Exec.Inversion.{bind-eq-ok, pair_of_first, pure-eq-world}
use smart_auth_with_kubernat.Models.{TokenResponse}
use smart_auth_with_kubernat.Platform.{Platform, IsDocumented, World}
use smart_auth_with_kubernat.RateLimiter.{Request}
use smart_auth_with_kubernat.Routes.{
  Call, post_refresh, Response, auth_limit, handle, serve, serve_all,
}
use smart_auth_with_kubernat.Routes.Invariant.{session-rate_limit, serve_all-IsSettled}
use smart_auth_with_kubernat.Settled.{IsSettled, IsSettled-IsPending, rollback-IsSettled}

module _ {P : Platform} where
  in_session-eq-ok :
      {A : Type 0} (m : Exec P A) (w w' : World P) (a : A)
      → in_session m w ≡ (ok a, w')
      → ((m w).0 ≡ ok a) × (w'.session ≡ P.rollback (m w).1.session)
  unfolding in_session
  in_session-eq-ok m w w' a h = ground arith

module _ {P : Platform} (settings : Settings) where
  session-auth_limit :
      (request : Request) (w : World P) → (auth_limit settings request w).1.session ≡ w.session
  unfolding auth_limit
  session-auth_limit request w = session-rate_limit settings "auth" _ _ request w

  -- the refresh in an answered POST /refresh
  handle-refresh :
      (request : Request) (token : String) (w w' : World P) (r : Response)
      → handle settings request (post_refresh token) w ≡ (ok r, w')
      → let w₁ = (auth_limit settings request w).1 in
        (response : TokenResponse) × (refresh_access_pair settings token w₁ ≡ (ok response, w'))
  unfolding handle
  handle-refresh request token w w' r h =
      let (_, _, h₁) = bind-eq-ok _ _ w h in
      let (response, done, h₂) = bind-eq-ok _ _ _ h₁ in
      let same = pure-eq-world _ _ h₂ in
      (response, pair_of_first _ done ∙ ap (λ (x : World P). (ok response, x)) same)

  -- an answered POST /refresh, with the world before its session is closed
  serve-refresh :
      (request : Request) (token : String) (w w' : World P) (r : Response)
      → serve settings request (post_refresh token) w ≡ (ok r, w')
      → let w₁ = (auth_limit settings request w).1 in
        (response : TokenResponse) × (w₂ : World P) × (refresh_access_pair settings token w₁
          ≡ (ok response, w₂))
        × (w'.session ≡ P.rollback w₂.session)
  serve-refresh request token w w' r h =
      let m = handle settings request (post_refresh token) in
      let (answered, closed) = in_session-eq-ok m w w' r h in
      let (response, refreshed) =
        handle-refresh request token w (m w).1 r (pair_of_first _ answered) in
      (response, (m w).1, refreshed, closed)

module _ {P : Platform} (L : IsDocumented P) (settings : Settings) where
  -- what a refresh leaves, once its session is closed
  IsSettled-closed :
      (token : String) (w₁ w₂ : World P) (response : TokenResponse)
      → P.saved w₁.session ≡ P.rows w₁.session
      → P.rejects w₁.session ≡ false
      → refresh_access_pair settings token w₁ ≡ (ok response, w₂)
      → IsSettled P (P.rows w₂.session) (P.rollback w₂.session)
  IsSettled-closed token w₁ w₂ response committed accepted h =
      let before : IsSettled P (P.rows w₁.session) w₁.session = record {
        reached = here;
        committed = committed;
        accepted = accepted;
      } in
      let after = rw h at (
        Ends-settles (refresh_access_pair settings token) w₁
          (Ends-refresh_access_pair L settings token) before) in
      rollback-IsSettled L w₂.session (
        IsSettled-IsPending
          (record { reached = here; committed = after.committed; accepted = after.accepted }))

  -- From a session with everything committed and nothing for the next flush to refuse: once
  -- POST /refresh was answered for a token, it is not answered for that token again, whoever sends it
  -- and whatever requests are served in between.
  pub refresh_served_once :
      (request other : Request) (token : String) (calls : List (Request × Call)) (w w' v' : World P)
      (r again : Response)
      → P.saved w.session ≡ P.rows w.session
      → P.rejects w.session ≡ false
      → serve settings request (post_refresh token) w ≡ (ok r, w')
      → serve settings other (post_refresh token) (serve_all settings calls w') ≢ (ok again, v')
  refresh_served_once request other token calls w w' v' r again committed accepted h h' =
      let w₁ = (auth_limit settings request w).1 in
      let v = serve_all settings calls w' in
      let v₁ = (auth_limit settings other v).1 in
      let (response, w₂, refreshed, closed) = serve-refresh settings request token w w' r h in
      let (response', v₂, refreshed', _) = serve-refresh settings other token v v' again h' in
      let kept = session-auth_limit settings request w in
      let settled =
        IsSettled-closed token w₁ w₂ response (ap P.saved kept ∙ committed ∙ sym (ap P.rows kept))
          (ap P.rejects kept ∙ accepted) refreshed in
      let served =
        serve_all-IsSettled L settings calls w'
          (subst (IsSettled P (P.rows w₂.session)) (sym closed) settled) in
      refresh_once L settings token w₁ w₂ v₁ v₂ response response' refreshed
        (rw (session-auth_limit settings other v) served.reached) refreshed'
