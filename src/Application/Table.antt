-- ===== src/Application/Table.antt =====
-- The routes of app/main.py, app/api/v1/router.py and the routers that it includes, with those that
-- FastAPI adds of its own, in the order in which they are added.
use smart_auth_with_kubernat.Prelude.{
  String, Bool, true, false, not, ◌&&◌, Option, none, some, List, [], ◌∷◌, ◌++◌, map, ◌==◌,
  string_eq, ◌≡◌,
}
use smart_auth_with_kubernat.Prelude.Rows.{find?}
use smart_auth_with_kubernat.Prelude.Splits.{split}
use smart_auth_with_kubernat.Config.{Settings}
use smart_auth_with_kubernat.Routes.{
  Call, post_register, post_login, post_refresh, post_logout, get_me, get_oauth_login,
  get_oauth_link, get_oauth_callback, get_oauth_link_callback,
}

-- what stands between the slashes of a route's path; a mount takes all that follows
pub data Segment : Type 0 where
  lit : String → Segment
  param : String → Segment
  rest : Segment

-- the handlers, by their names, the mounted files, and FastAPI's own pages
pub data Endpoint : Type 0 where
  assets read_root metrics health_check system_overview prometheus_query register login refresh
        logout me oauth_login oauth_link oauth_callback oauth_link_callback openapi swagger_ui_html
        swagger_ui_redirect redoc_html :
      Endpoint

-- A mount has no method: it takes any. A route of two methods is two entries.
pub record Entry : Type 0 where
  pub method : Option String
  pub path : List Segment
  pub endpoint : Endpoint

abbrev get_route : List Segment → Endpoint → Entry
get_route path endpoint = record { method = some "GET"; path = path; endpoint = endpoint }

abbrev post_route : List Segment → Endpoint → Entry
post_route path endpoint = record { method = some "POST"; path = path; endpoint = endpoint }

-- `include_router(router, prefix=prefix)`, and the prefix of a router of its own
abbrev pub under : List Segment → Entry → Entry
under prefix e = record e { path = prefix ++ e.path }

abbrev health_router : List Entry
health_router = get_route (lit "health" ∷ []) health_check ∷ []

abbrev system_router : List Entry
system_router = map (under (lit "system" ∷ [])) (
    get_route (lit "overview" ∷ []) system_overview
    ∷ get_route (lit "prometheus-query" ∷ []) prometheus_query
    ∷ [])

abbrev of_provider : List Segment → List Segment
of_provider path = lit "oauth" ∷ param "provider" ∷ path

abbrev auth_router : List Entry
auth_router = map (under (lit "auth" ∷ [])) (
    post_route (lit "register" ∷ []) register
    ∷ post_route (lit "login" ∷ []) login
    ∷ post_route (lit "refresh" ∷ []) refresh
    ∷ post_route (lit "logout" ∷ []) logout
    ∷ get_route (lit "me" ∷ []) me
    ∷ get_route (of_provider (lit "login" ∷ [])) oauth_login
    ∷ get_route (of_provider (lit "link" ∷ [])) oauth_link
    ∷ get_route (of_provider (lit "callback" ∷ [])) oauth_callback
    ∷ get_route (of_provider (lit "link" ∷ lit "callback" ∷ [])) oauth_link_callback
    ∷ [])

-- the route of a call, as the router of authentication has it
abbrev pub entry_of : Call → Entry
entry_of (post_register payload) = post_route (lit "auth" ∷ lit "register" ∷ []) register
entry_of (post_login payload) = post_route (lit "auth" ∷ lit "login" ∷ []) login
entry_of (post_refresh refresh_token) = post_route (lit "auth" ∷ lit "refresh" ∷ []) refresh
entry_of (post_logout refresh_token) = post_route (lit "auth" ∷ lit "logout" ∷ []) logout
entry_of (get_me credentials) = get_route (lit "auth" ∷ lit "me" ∷ []) me
entry_of (get_oauth_login provider) =
    get_route (lit "auth" ∷ of_provider (lit "login" ∷ [])) oauth_login
entry_of (get_oauth_link provider credentials) =
    get_route (lit "auth" ∷ of_provider (lit "link" ∷ [])) oauth_link
entry_of (get_oauth_callback provider code state) =
    get_route (lit "auth" ∷ of_provider (lit "callback" ∷ [])) oauth_callback
entry_of (get_oauth_link_callback provider code state) =
    get_route (lit "auth" ∷ of_provider (lit "link" ∷ lit "callback" ∷ [])) oauth_link_callback

abbrev pub api_router : List Entry
api_router = health_router ++ system_router ++ auth_router

-- `app.mount("/assets", ...)`
abbrev pub assets_mount : Entry
assets_mount = record { method = none; path = lit "" ∷ lit "assets" ∷ rest ∷ []; endpoint = assets }

-- `@app.get("/")`
abbrev pub root_route : Entry
root_route = get_route (lit "" ∷ lit "" ∷ []) read_root

-- `@app.get("/metrics")`
abbrev pub metrics_route : Entry
metrics_route = get_route (lit "" ∷ lit "metrics" ∷ []) metrics

-- the prefix that a text without braces stands for: FastAPI reads a pair of braces as a parameter
abbrev pub prefix_of : String → List Segment
prefix_of prefix = map lit (split b'/' prefix)

-- one of the pages of the documentation, which Starlette answers to HEAD as well
abbrev page : List Segment → Endpoint → List Entry → List Entry
page path endpoint more =
    get_route path endpoint
    ∷ record { method = some "HEAD"; path = path; endpoint = endpoint }
    ∷ more

-- what `FastAPI(...)` adds, where it is not told otherwise, before any other route
abbrev pub documentation_routes : List Entry → List Entry
documentation_routes more = page (lit "" ∷ lit "openapi.json" ∷ []) openapi (
    page (lit "" ∷ lit "docs" ∷ []) swagger_ui_html (
      page (lit "" ∷ lit "docs" ∷ lit "oauth2-redirect" ∷ []) swagger_ui_redirect
        (page (lit "" ∷ lit "redoc" ∷ []) redoc_html more)))

unfoldable pub table : Settings → List Entry
table settings = documentation_routes (
    assets_mount
    ∷ root_route
    ∷ metrics_route
    ∷ map (under (prefix_of settings.api_v1_prefix)) api_router)

-- A path, split at its slashes, is an instance of a route's.
abbrev pub aligned : List Segment → List String → Bool
aligned [] [] = true
aligned (lit text ∷ more) (part ∷ parts) = text == part && aligned more parts
aligned (param name ∷ more) (part ∷ parts) = not (part == "") && aligned more parts
aligned (rest ∷ more) (part ∷ parts) = true
aligned _ _ = false

abbrev pub takes : Option String → String → Bool
takes none method = true
takes (some m) method = m == method

abbrev pub accepts : String → List String → Entry → Bool
accepts method parts e = takes e.method method && aligned e.path parts

-- Starlette's router, on routes of such paths
pub record Router : Type 0 where
  pub find_route : List Entry → String → String → Option Entry

-- "Routes are matched in order": the first that has the request's method and path is taken.
pub record IsRouter (R : Router) : Type 0 where
  pub find_route_lem :
      (routes : List Entry) (method path : String)
      → R.find_route routes method path ≡ find? (accepts method (split b'/' path)) routes
