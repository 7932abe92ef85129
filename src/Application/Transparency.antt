-- ===== src/Application/Transparency.antt =====
-- What the routes do behind the middleware, and without it.
use smart_auth_with_kubernat.Prelude.{String, ℕ, ◌≡◌, refl, ap, List, [], ◌∷◌, map}
use smart_auth_with_kubernat.Application.{application}
use smart_auth_with_kubernat.Config.{Settings}
use smart_auth_with_kubernat.Exec.{Result}
use smart_auth_with_kubernat.Middleware.{
  HttpRequest, Outcome, Reply, Watch, dispatch, dispatch_all, replies,
}
use smart_auth_with_kubernat.Platform.{Platform, World}
use smart_auth_with_kubernat.Platform.Contextvars.{Contextvars}
use smart_auth_with_kubernat.Platform.Registry.{Registry}
use smart_auth_with_kubernat.RateLimiter.{Request}
use smart_auth_with_kubernat.Routes.{Call, Response, serve, serve_all}

module _ {P : Platform} (answer : Call → Result Response → Outcome) (settings : Settings) where
  -- what the routes alone make of requests, one after the other
  unfoldable pub outcomes : List (Request × Call) → World P → List Outcome
  outcomes [] w = []
  outcomes ((received, call) ∷ calls) w =
      let (result, w') = serve settings received call w in answer call result ∷ outcomes calls w'

  outcomes-application :
      (find_route : HttpRequest → Request × Call) (requests : List HttpRequest) (w : World P)
      → map
          (λ (h : HttpRequest × Reply). h.1.outcome)
          (replies (application answer settings find_route) requests w)
        ≡ outcomes (map find_route requests) w
  unfolding replies outcomes application
  outcomes-application find_route [] w = refl
  outcomes-application find_route (request ∷ requests) w =
      let (received, call) = find_route request in
      let (result, w') = serve settings received call w in
      ap (λ l. answer call result ∷ l) (outcomes-application find_route requests w')

  module _ {R : Registry} {V : Contextvars} (seconds : ℕ → ℕ → R.Float)
      (rounded_ms : R.Float → R.Float) (uuid4_text : ℕ → String)
      (find_route : HttpRequest → Request × Call) where
    world-dispatch_all :
        (requests : List HttpRequest) (w : World P) (watch : Watch R V)
        → (dispatch_all seconds rounded_ms uuid4_text
            (application answer settings find_route)
            requests
            (w, watch)).0
          ≡ serve_all settings (map find_route requests) w
    unfolding dispatch_all dispatch serve_all application
    world-dispatch_all [] w watch = refl
    world-dispatch_all (request ∷ requests) w watch =
        let s =
          dispatch seconds rounded_ms uuid4_text (application answer settings find_route) request
            (w, watch) in
        world-dispatch_all requests s.1.0 s.1.1

    -- Behind the middleware, a sequence of requests leaves the world as the routes alone leave it,
    -- whatever is counted and logged, and what the middleware sees each end with is what the routes
    -- alone make of it, however FastAPI answers their results.
    pub dispatch_all-serve_all :
        (requests : List HttpRequest) (w : World P) (watch : Watch R V)
        → ((dispatch_all seconds rounded_ms uuid4_text
              (application answer settings find_route)
              requests
              (w, watch)).0
            ≡ serve_all settings (map find_route requests) w)
          × (map
                (λ (h : HttpRequest × Reply). h.1.outcome)
                (replies (application answer settings find_route) requests w)
              ≡ outcomes (map find_route requests) w)
    dispatch_all-serve_all requests w watch =
        (world-dispatch_all requests w watch, outcomes-application find_route requests w)
