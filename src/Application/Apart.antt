-- ===== src/Application/Apart.antt =====
-- No request has the method and the path of two routes.
use smart_auth_with_kubernat.Prelude.{
  String, Bool, true, false, not, ◌&&◌, Option, none, some, List, [], ◌∷◌, ◌++◌, map, ◌==◌,
  string_eq, ==_refl, ==_iff, ◌≡◌, refl, ◌∙◌, ◌||◌, arith, is_some,
}
use smart_auth_with_kubernat.Constraints.{Distinct}
use smart_auth_with_kubernat.Prelude.Rows.{find?}
use smart_auth_with_kubernat.Prelude.Splits.{split}
use smart_auth_with_kubernat.Config.{Settings}
use smart_auth_with_kubernat.Application.Table.{
  Segment, lit, param, rest, Endpoint, assets, read_root, metrics, openapi, swagger_ui_html,
  swagger_ui_redirect, redoc_html, Entry, under, api_router, table, aligned, takes, accepts,
}

-- Some path may be an instance of both.
abbrev overlap : List Segment → List Segment → Bool
overlap [] [] = true
overlap (lit a ∷ s) (lit b ∷ t) = a == b && overlap s t
overlap (lit a ∷ s) (param n ∷ t) = overlap s t
overlap (param n ∷ s) (lit b ∷ t) = overlap s t
overlap (param n ∷ s) (param m ∷ t) = overlap s t
overlap (rest ∷ s) (_ ∷ t) = true
overlap (lit a ∷ s) (rest ∷ t) = true
overlap (param n ∷ s) (rest ∷ t) = true
overlap [] (_ ∷ t) = false
overlap (_ ∷ s) [] = false

abbrev same_method : Option String → Option String → Bool
same_method none m = true
same_method (some l) none = true
same_method (some l) (some m) = l == m

abbrev pub clashes : Entry → Entry → Bool
clashes e f = same_method e.method f.method && overlap e.path f.path

overlap_sound :
    (s t : List Segment) (parts : List String)
    → aligned s parts ≡ true
    → aligned t parts ≡ true
    → overlap s t ≡ true
overlap_sound [] [] parts h k = refl
overlap_sound (lit a ∷ s) (lit b ∷ t) (p ∷ parts) h k =
    ground (arith, overlap_sound s t parts, ==_iff a p, ==_iff b p, ==_iff a b)
overlap_sound (lit a ∷ s) (param n ∷ t) (p ∷ parts) h k = ground (arith, overlap_sound s t parts)
overlap_sound (param n ∷ s) (lit b ∷ t) (p ∷ parts) h k = ground (arith, overlap_sound s t parts)
overlap_sound (param n ∷ s) (param m ∷ t) (p ∷ parts) h k = ground (arith, overlap_sound s t parts)
overlap_sound (rest ∷ s) (lit b ∷ t) parts h k = refl
overlap_sound (rest ∷ s) (param b ∷ t) parts h k = refl
overlap_sound (rest ∷ s) (rest ∷ t) parts h k = refl
overlap_sound (lit a ∷ s) (rest ∷ t) parts h k = refl
overlap_sound (param n ∷ s) (rest ∷ t) parts h k = refl
overlap_sound s t parts h k = ground arith

same_method_sound :
    (l m : Option String) (method : String)
    → takes l method ≡ true
    → takes m method ≡ true
    → same_method l m ≡ true
same_method_sound none m method h k = refl
same_method_sound (some a) none method h k = refl
same_method_sound (some a) (some b) method h k =
    ground (arith, ==_iff a method, ==_iff b method, ==_iff a b)

pub clashes_sound :
    (method : String) (parts : List String) (e f : Entry)
    → accepts method parts e ≡ true
    → accepts method parts f ≡ true
    → clashes e f ≡ true
clashes_sound method parts e f h k =
    ground (arith, overlap_sound e.path f.path parts, same_method_sound e.method f.method method)

overlap-prefix :
    (prefix : List String) (s t : List Segment)
    → overlap (map lit prefix ++ s) (map lit prefix ++ t) ≡ overlap s t
overlap-prefix [] s t = refl
overlap-prefix (x ∷ prefix) s t = ground (arith, ==_refl x, overlap-prefix prefix s t)

find?-under :
    (prefix : List String) (e : Entry) (l : List Entry)
    → is_some (find? (clashes (under (map lit prefix) e)) (map (under (map lit prefix)) l))
      ≡ is_some (find? (clashes e) l)
find?-under prefix e [] = refl
find?-under prefix e (f ∷ l) =
    ground (arith, overlap-prefix prefix e.path f.path, find?-under prefix e l)

Distinct-under :
    (prefix : List String) (l : List Entry)
    → Distinct clashes l
    → Distinct clashes (map (under (map lit prefix)) l)
Distinct-under prefix [] h = tt
Distinct-under prefix (e ∷ l) (fresh, h) =
    (find?-under prefix e l ∙ fresh, Distinct-under prefix l h)

-- a part of the paths of the application's own routes
is_own : String → Bool
is_own text =
    text == ""
    || text == "assets"
    || text == "metrics"
    || text == "openapi.json"
    || text == "docs"
    || text == "oauth2-redirect"
    || text == "redoc"

-- The route's first part is none of theirs.
abbrev has_inner_head : List Segment → Bool
has_inner_head (lit text ∷ more) = not (is_own text)
has_inner_head _ = false

abbrev all_inner : List Entry → Bool
all_inner [] = true
all_inner (e ∷ l) = has_inner_head e.path && all_inner l

-- the second part of a prefix is not that of the mounted files
abbrev pub is_clear : List String → Bool
is_clear [] = false
is_clear (x ∷ []) = true
is_clear (x ∷ y ∷ parts) = not (y == "assets")

-- No path is an instance of one of the application's own routes and of an inner one.
abbrev Misses : List String → List Segment → Type 0
Misses prefix own =
    (path : List Segment)
    → has_inner_head path ≡ true
    → overlap own (map lit prefix ++ path) ≡ false

is_own-inner :
    (own inner : String) → is_own own ≡ true → is_own inner ≡ false → own == inner ≡ false
is_own-inner own inner h k = ground (arith, ==_iff own inner)

assets-Misses :
    (prefix : List String)
    → is_clear prefix ≡ true
    → Misses prefix (lit "" ∷ lit "assets" ∷ rest ∷ [])
unfolding is_own
assets-Misses (x ∷ []) clear (lit t ∷ path) h = ground (arith, ==_iff "assets" t, ==_iff t "assets")
assets-Misses (x ∷ y ∷ prefix) clear path h = ground (arith, ==_iff "assets" y, ==_iff y "assets")
assets-Misses prefix clear path h = ground arith

module _ (name : String) (own : is_own name ≡ true) where
  page-Misses :
      (prefix : List String) → is_clear prefix ≡ true → Misses prefix (lit "" ∷ lit name ∷ [])
  page-Misses (x ∷ []) clear (lit t ∷ path) h = ground (arith, is_own-inner name t own)
  page-Misses (x ∷ y ∷ []) clear (lit t ∷ path) h = ground arith
  page-Misses (x ∷ y ∷ z ∷ prefix) clear (lit t ∷ path) h = ground arith
  page-Misses prefix clear path h = ground arith

redirect-Misses :
    (prefix : List String)
    → is_clear prefix ≡ true
    → Misses prefix (lit "" ∷ lit "docs" ∷ lit "oauth2-redirect" ∷ [])
unfolding is_own
redirect-Misses (x ∷ []) clear (lit t ∷ path) h = ground (arith, is_own-inner "docs" t refl)
redirect-Misses (x ∷ y ∷ []) clear (lit t ∷ path) h =
    ground (arith, is_own-inner "oauth2-redirect" t refl)
redirect-Misses (x ∷ y ∷ z ∷ []) clear (lit t ∷ path) h = ground arith
redirect-Misses (x ∷ y ∷ z ∷ u ∷ prefix) clear (lit t ∷ path) h = ground arith
redirect-Misses prefix clear path h = ground arith

missed-under :
    (own : Entry) (prefix : List String) (l : List Entry)
    → Misses prefix own.path
    → all_inner l ≡ true
    → is_some (find? (clashes own) (map (under (map lit prefix)) l)) ≡ false
missed-under own prefix [] misses h = refl
missed-under own prefix (e ∷ l) misses h =
    ground (arith, misses e.path, missed-under own prefix l misses)

api_router-Distinct : Distinct clashes api_router
api_router-Distinct = (
  refl,
  (refl, (refl, (refl, (refl, (refl, (refl, (refl, (refl, (refl, (refl, (refl, tt))))))))))),
)

-- No request has the method and the path of two routes of the table.
pub table-Distinct :
    (settings : Settings)
    → is_clear (split b'/' settings.api_v1_prefix) ≡ true
    → Distinct clashes (table settings)
unfolding table is_own
table-Distinct settings clear =
    let prefix = split b'/' settings.api_v1_prefix in
    let missed =
      λ (path : List Segment) (misses : Misses prefix path) (method : Option String)
          (endpoint : Endpoint).
        missed-under (record { method = method; path = path; endpoint = endpoint }) prefix
          api_router misses refl in
    let page = λ (name : String) (own : is_own name ≡ true).
      missed (lit "" ∷ lit name ∷ []) (page-Misses name own prefix clear) in
    let redirect =
      missed (lit "" ∷ lit "docs" ∷ lit "oauth2-redirect" ∷ []) (redirect-Misses prefix clear) in
    let get = some "GET" in
    let head = some "HEAD" in
    (
      page "openapi.json" refl get openapi,
      (
        page "openapi.json" refl head openapi,
        (
          page "docs" refl get swagger_ui_html,
          (
            page "docs" refl head swagger_ui_html,
            (
              redirect get swagger_ui_redirect,
              (
                redirect head swagger_ui_redirect,
                (
                  page "redoc" refl get redoc_html,
                  (
                    page "redoc" refl head redoc_html,
                    (
                      missed (lit "" ∷ lit "assets" ∷ rest ∷ []) (assets-Misses prefix clear) none
                          assets,
                      (
                        page "" refl get read_root,
                        (
                          page "metrics" refl get metrics,
                          Distinct-under prefix api_router api_router-Distinct,
                        ),
                      ),
                    ),
                  ),
                ),
              ),
            ),
          ),
        ),
      ),
    )
