-- ===== src/Tests/Routed.antt =====
-- Requests to the table of routes, over a router that takes the first that fits.
use smart_auth_with_kubernat.Prelude.{◌≡◌, refl, ◌↔◌, some, none, ◌∷◌, [], true}
use mathlib.Core.List.{Memᴰ}
use smart_auth_with_kubernat.Prelude.Rows.{find?}
use smart_auth_with_kubernat.Prelude.Splits.{split, free}
use smart_auth_with_kubernat.Application.Routing.{find_route_iff, find_route-entry_of}
use smart_auth_with_kubernat.Application.Table.{
  Entry, lit, param, rest, Endpoint, Router, IsRouter, accepts, table,
}
use smart_auth_with_kubernat.Routes.{get_oauth_link_callback}
use smart_auth_with_kubernat.Tests.Memory.{sample_settings}

abbrev ordered_router : Router
ordered_router = record {
  find_route = λ routes method path. find? (accepts method (split b'/' path)) routes;
}

ordered_router-IsRouter : IsRouter ordered_router
ordered_router-IsRouter = record { find_route_lem = λ routes method path. refl }

abbrev login_entry : Entry
login_entry = record {
  method = some "POST";
  path = lit "" ∷ lit "api" ∷ lit "v1" ∷ lit "auth" ∷ lit "login" ∷ [];
  endpoint = Endpoint.login;
}

find_route_iff_example :
    (ordered_router.find_route (table sample_settings) "POST" "/api/v1/auth/login"
      ≡ some login_entry)
    ↔ (Memᴰ login_entry (table sample_settings)
        × (accepts "POST" ("" ∷ "api" ∷ "v1" ∷ "auth" ∷ "login" ∷ []) login_entry ≡ true))
unfolding split free
find_route_iff_example =
    find_route_iff ordered_router-IsRouter sample_settings "POST" "/api/v1/auth/login" login_entry
      refl refl

find_route-entry_of_example :
    ordered_router.find_route
      (table sample_settings)
      "GET"
      "/api/v1/auth/oauth/github/link/callback"
    ≡ some (record {
      method = some "GET";
      path =
          lit ""
          ∷ lit "api"
          ∷ lit "v1"
          ∷ lit "auth"
          ∷ lit "oauth"
          ∷ param "provider"
          ∷ lit "link"
          ∷ lit "callback"
          ∷ [];
      endpoint = Endpoint.oauth_link_callback;
    })
unfolding split
find_route-entry_of_example =
    find_route-entry_of ordered_router-IsRouter sample_settings
      (get_oauth_link_callback "github" "code" "state") "/api/v1/auth/oauth/github/link/callback"
      refl refl refl

-- A prefix that begins with /assets is shadowed by the mounted files.
shadowed :
    ordered_router.find_route
      (table (record sample_settings { api_v1_prefix = "/assets" }))
      "GET"
      "/assets/health"
    ≡ some (record {
      method = none;
      path = lit "" ∷ lit "assets" ∷ rest ∷ [];
      endpoint = Endpoint.assets;
    })
unfolding table split
shadowed = refl

-- the pages that FastAPI adds
documented :
    ordered_router.find_route (table sample_settings) "GET" "/docs"
    ≡ some (record {
      method = some "GET";
      path = lit "" ∷ lit "docs" ∷ [];
      endpoint = Endpoint.swagger_ui_html;
    })
unfolding table split
documented = refl
