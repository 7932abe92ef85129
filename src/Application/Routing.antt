-- ===== src/Application/Routing.antt =====
-- Which route a request finds.
use smart_auth_with_kubernat.Prelude.{
  ℕ, zero, suc, String, Bool, true, not, Option, none, some, List, [], ◌∷◌, ◌++◌, map, ◌==◌,
  string_eq, ==_refl, ◌≡◌, refl, sym, ◌∙◌, arith, ◌↔◌,
}
use mathlib.Core.List.{Memᴰ}
use smart_auth_with_kubernat.Constraints.Keys.{find?-Memᴰ, Memᴰ-find?}
use smart_auth_with_kubernat.Prelude.Rows.{find?_sound}
use smart_auth_with_kubernat.Prelude.Splits.{split, free}
use smart_auth_with_kubernat.Config.{Settings}
use smart_auth_with_kubernat.Application.Apart.{clashes, clashes_sound, is_clear, table-Distinct}
use smart_auth_with_kubernat.Application.Table.{
  Segment, lit, Entry, under, prefix_of, table, aligned, accepts, Router, IsRouter, entry_of,
}
use smart_auth_with_kubernat.Routes.{
  Call, post_register, post_login, post_refresh, post_logout, get_me, get_oauth_login,
  get_oauth_link, get_oauth_callback, get_oauth_link_callback,
}

found_iff :
    {R : Router} (L : IsRouter R) (settings : Settings) (method path : String) (e : Entry)
    → is_clear (split b'/' settings.api_v1_prefix) ≡ true
    → (R.find_route (table settings) method path ≡ some e)
      ↔ (Memᴰ e (table settings) × (accepts method (split b'/' path) e ≡ true))
found_iff {R} L settings method path e clear =
    let accepted = accepts method (split b'/' path) in
    let found = L.find_route_lem (table settings) method path in
    (
      λ h.
          let here = sym found ∙ h in
          (
            find?-Memᴰ accepted (table settings) e here,
            find?_sound accepted (table settings) e here,
          ),
      λ (m, taken).
          found
          ∙ Memᴰ-find? clashes accepted (clashes_sound method (split b'/' path)) (table settings) e
              (table-Distinct settings clear) m taken,
    )

-- Under a prefix without braces that does not begin with /assets, a request finds a route exactly where
-- the table, the pages of the documentation included, has it and the request has its method and path,
-- whatever order the routes were added in.
pub find_route_iff :
    {R : Router} (L : IsRouter R) (settings : Settings) (method path : String) (e : Entry)
    → free b'{' settings.api_v1_prefix ≡ true
    → is_clear (split b'/' settings.api_v1_prefix) ≡ true
    → (R.find_route (table settings) method path ≡ some e)
      ↔ (Memᴰ e (table settings) × (accepts method (split b'/' path) e ≡ true))
find_route_iff L settings method path e no_braces clear = found_iff L settings method path e clear

-- the method of a request for a call
abbrev pub method_of : Call → String
method_of (post_register payload) = "POST"
method_of (post_login payload) = "POST"
method_of (post_refresh refresh_token) = "POST"
method_of (post_logout refresh_token) = "POST"
method_of _ = "GET"

-- the path of a request for a call, below the prefix
abbrev pub parts_of : Call → List String
parts_of (post_register payload) = "auth" ∷ "register" ∷ []
parts_of (post_login payload) = "auth" ∷ "login" ∷ []
parts_of (post_refresh refresh_token) = "auth" ∷ "refresh" ∷ []
parts_of (post_logout refresh_token) = "auth" ∷ "logout" ∷ []
parts_of (get_me credentials) = "auth" ∷ "me" ∷ []
parts_of (get_oauth_login provider) = "auth" ∷ "oauth" ∷ provider ∷ "login" ∷ []
parts_of (get_oauth_link provider credentials) = "auth" ∷ "oauth" ∷ provider ∷ "link" ∷ []
parts_of (get_oauth_callback provider code state) = "auth" ∷ "oauth" ∷ provider ∷ "callback" ∷ []
parts_of (get_oauth_link_callback provider code state) =
    "auth" ∷ "oauth" ∷ provider ∷ "link" ∷ "callback" ∷ []

-- Its provider, where it has one, is not empty.
abbrev pub has_provider : Call → Bool
has_provider (get_oauth_login provider) = not (provider == "")
has_provider (get_oauth_link provider credentials) = not (provider == "")
has_provider (get_oauth_callback provider code state) = not (provider == "")
has_provider (get_oauth_link_callback provider code state) = not (provider == "")
has_provider _ = true

aligned-prefix :
    (prefix : List String) (path : List Segment) (parts : List String)
    → aligned (map lit prefix ++ path) (prefix ++ parts) ≡ aligned path parts
aligned-prefix [] path parts = refl
aligned-prefix (x ∷ prefix) path parts = ground (arith, ==_refl x, aligned-prefix prefix path parts)

entry_of-accepts :
    (call : Call)
    → has_provider call ≡ true
    → accepts (method_of call) (parts_of call) (entry_of call) ≡ true
entry_of-accepts (post_register payload) h = refl
entry_of-accepts (post_login payload) h = refl
entry_of-accepts (post_refresh refresh_token) h = refl
entry_of-accepts (post_logout refresh_token) h = refl
entry_of-accepts (get_me credentials) h = refl
entry_of-accepts (get_oauth_login provider) h = rw h refl
entry_of-accepts (get_oauth_link provider credentials) h = rw h refl
entry_of-accepts (get_oauth_callback provider code state) h = rw h refl
entry_of-accepts (get_oauth_link_callback provider code state) h = rw h refl

abbrev get_elem? : {A : Type 0} → List A → ℕ → Option A
get_elem? [] i = none
get_elem? (x ∷ xs) zero = some x
get_elem? (x ∷ xs) (suc i) = get_elem? xs i

get_elem?-Memᴰ : {A : Type 0} (l : List A) (i : ℕ) (e : A) → get_elem? l i ≡ some e → Memᴰ e l
get_elem?-Memᴰ [] i e h = absurd (ground arith)
get_elem?-Memᴰ (x ∷ l) zero e h = Memᴰ.head (ground arith)
get_elem?-Memᴰ (x ∷ l) (suc i) e h = Memᴰ.tail (get_elem?-Memᴰ l i e h)

-- where the table has the route of a call
abbrev position : Call → ℕ
position (post_register payload) = 14
position (post_login payload) = 15
position (post_refresh refresh_token) = 16
position (post_logout refresh_token) = 17
position (get_me credentials) = 18
position (get_oauth_login provider) = 19
position (get_oauth_link provider credentials) = 20
position (get_oauth_callback provider code state) = 21
position (get_oauth_link_callback provider code state) = 22

get_elem?-position :
    (settings : Settings) (call : Call)
    → get_elem? (table settings) (position call)
      ≡ some (under (prefix_of settings.api_v1_prefix) (entry_of call))
unfolding table
get_elem?-position settings (post_register payload) = refl
get_elem?-position settings (post_login payload) = refl
get_elem?-position settings (post_refresh refresh_token) = refl
get_elem?-position settings (post_logout refresh_token) = refl
get_elem?-position settings (get_me credentials) = refl
get_elem?-position settings (get_oauth_login provider) = refl
get_elem?-position settings (get_oauth_link provider credentials) = refl
get_elem?-position settings (get_oauth_callback provider code state) = refl
get_elem?-position settings (get_oauth_link_callback provider code state) = refl

-- Under a prefix that does not begin with /assets, a request for a call reaches its route: it has the
-- method of the call, and its path is the prefix and the path of the call, with a provider that is not
-- empty where there is one.
pub find_route-entry_of :
    {R : Router} (L : IsRouter R) (settings : Settings) (call : Call) (path : String)
    → is_clear (split b'/' settings.api_v1_prefix) ≡ true
    → has_provider call ≡ true
    → split b'/' path ≡ split b'/' settings.api_v1_prefix ++ parts_of call
    → R.find_route (table settings) (method_of call) path
      ≡ some (under (prefix_of settings.api_v1_prefix) (entry_of call))
find_route-entry_of L settings call path clear provided at =
    let prefix = split b'/' settings.api_v1_prefix in
    let e = under (prefix_of settings.api_v1_prefix) (entry_of call) in
    (found_iff L settings (method_of call) path e clear).1 (
      get_elem?-Memᴰ (table settings) (position call) e (get_elem?-position settings call),
      rw (at, aligned-prefix prefix (entry_of call).path (parts_of call))
          (entry_of-accepts call provided),
    )
