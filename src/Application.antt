-- ===== src/Application.antt =====
-- app/main.py: the routes of app/api/v1/auth.py, put behind the middleware.
pub mod Routing
pub mod Table
pub mod Lifespan
pub mod Apart
pub mod Transparency
use Prim.Native.String.{◌++◌ as ◌++ₜ◌}
use smart_auth_with_kubernat.Prelude.{ℕ, String, Option, some, List, [], ◌∷◌}
use smart_auth_with_kubernat.Application.Table.{Segment, lit, param, rest, entry_of}
use smart_auth_with_kubernat.Config.{Settings}
use smart_auth_with_kubernat.Exec.{Result, ok, err, Failure, http, http_retry, exception}
use smart_auth_with_kubernat.Middleware.{HttpRequest, Outcome, responded, raised, Reply}
use smart_auth_with_kubernat.Platform.{Platform, World}
use smart_auth_with_kubernat.RateLimiter.{Request}
use smart_auth_with_kubernat.Routes.{
  Call, post_register, post_login, post_refresh, post_logout, get_me, get_oauth_login,
  get_oauth_link, get_oauth_callback, get_oauth_link_callback, Response, serve,
}

-- the path of a route as it was written
abbrev render : List Segment → String
render [] = ""
render (lit text ∷ more) = "/" ++ₜ text ++ₜ render more
render (param name ∷ more) = "/{" ++ₜ name ++ₜ "}" ++ₜ render more
render (rest ∷ more) = "/" ++ₜ render more

-- `app.include_router(api_router, prefix=settings.api_v1_prefix)`
abbrev pub full_path : Settings → Call → String
full_path settings call = settings.api_v1_prefix ++ₜ render (entry_of call).path

-- what is behind the middleware, for requests that FastAPI finds a route for, where `answer` is what it
-- makes of a handler's result
unfoldable pub application :
    {P : Platform}
    → (Call → Result Response → Outcome)
    → Settings
    → (HttpRequest → Request × Call)
    → HttpRequest
    → World P
    → Reply × World P
application answer settings find_route request w =
    let (received, call) = find_route request in
    let (result, w') = serve settings received call w in
    (record { outcome = answer call result; route = some (full_path settings call) }, w')
