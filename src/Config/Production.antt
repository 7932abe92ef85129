-- ===== src/Config/Production.antt =====
-- Which settings the program starts with.
use Prim.Native.String.{count}
use smart_auth_with_kubernat.Prelude.{
  String, true, false, not, ◌&&◌, ◌||◌, Option, none, some, List, [], ◌⊎◌, inl, inr, ◌≡◌, ◌≢◌, ◌↔◌,
  ◌≤◌, refl, sym, ap, ◌∙◌, subst, arith, ◌==◌, ==_iff, string_eq, ltb, Bool-cases,
}
use smart_auth_with_kubernat.Prelude.Texts.{lower}
use smart_auth_with_kubernat.Prelude.Splits.{contains}
use smart_auth_with_kubernat.Config.{Settings}
use smart_auth_with_kubernat.Config.Validators.{
  Url, is_local, is_empty, is_placeholder, check_url, validate_production_configuration, normalized,
  load,
}
use smart_auth_with_kubernat.Exec.{Result, ok}
use smart_auth_with_kubernat.Config.Checks.{
  IsPublic, guard_iff, past_guard, ||_iff, neither, is_placeholder-long, not_iff, url_iff,
  proxies_iff,
}

-- what is asked of the settings in production
pub record IsHardened (urlparse : String → Option Url) (s : Settings) : Type 0 where
  pub quiet : s.debug ≡ false
  pub strong : 64 ≤ count s.secret_key
  pub url : Url
  pub parsed : urlparse s.public_backend_url ≡ some url
  pub IsPublic_url : IsPublic url
  pub remote : contains "@localhost" s.database_url ≡ false
  pub remote_address : contains "@127.0.0.1" s.database_url ≡ false
  pub named_proxies : s.trust_proxy_headers ≡ true → s.trusted_proxy_cidrs ≢ []

module _ (urlparse : String → Option Url) where
  check_url_iff :
      (found : Option Url) (r : Result Settings) (s : Settings)
      → (check_url urlparse found r ≡ ok s)
        ↔ (((url : Url) × (found ≡ some url) × IsPublic url) × (r ≡ ok s))
  check_url_iff none r s = (λ h. ground arith, λ ((url, h, _), _). ground arith)
  check_url_iff (some url) r s = (
    λ h.
        let (good, h₁) = (guard_iff (not (url.scheme == "https") || url.netloc == "") _ _ s).0 h in
        let (public, h₂) = (guard_iff (is_local url.hostname) _ _ s).0 h₁ in
        ((url, refl, (url_iff url).0 (good, public)), h₂),
    λ ((u, same, public), h₂).
        let here : IsPublic url = subst IsPublic (cc) public in
        let (good, named) = (url_iff url).1 here in
        (guard_iff (not (url.scheme == "https") || url.netloc == "") _ _ s).1
          (good, (guard_iff (is_local url.hostname) _ _ s).1 (named, h₂)),
  )

  -- the tests of production, one after the other
  checks_iff :
      (s : Settings)
      → lower s.app_env ≡ "production"
      → (validate_production_configuration urlparse s ≡ ok s) ↔ IsHardened urlparse s
  unfolding validate_production_configuration
  checks_iff s production =
      let weak = is_placeholder s.secret_key || ltb (count s.secret_key) 64 in
      let local = contains "@localhost" s.database_url || contains "@127.0.0.1" s.database_url in
      let anyone = s.trust_proxy_headers && is_empty s.trusted_proxy_cidrs in
      let found = urlparse s.public_backend_url in
      let at_all = past_guard (not (lower s.app_env == "production")) _ _ s (
        (not_iff (lower s.app_env == "production")).1
          ((==_iff (lower s.app_env) "production").1 production)) in
      (
        λ h.
            let (quiet, h₁) = (guard_iff s.debug _ _ s).0 (at_all.0 h) in
            let (key, h₂) = (guard_iff weak _ _ s).0 h₁ in
            let ((url, parsed, public), h₃) = (check_url_iff found _ s).0 h₂ in
            let (far, h₄) = (guard_iff local _ _ s).0 h₃ in
            let (named, _) = (guard_iff anyone _ _ s).0 h₄ in
            let (_, long) =
              (||_iff (is_placeholder s.secret_key) (ltb (count s.secret_key) 64)).0 key in
            let (name, address) =
              (||_iff (contains "@localhost" s.database_url)
                  (contains "@127.0.0.1" s.database_url)).0
                far in
            record {
              quiet = quiet;
              strong = ground arith;
              url = url;
              parsed = parsed;
              IsPublic_url = public;
              remote = name;
              remote_address = address;
              named_proxies = (proxies_iff s.trust_proxy_headers s.trusted_proxy_cidrs).0 named;
            },
        λ h.
            let strong = h.strong in
            let long : ltb (count s.secret_key) 64 ≡ false = ground arith in
            at_all.1 (
              (guard_iff s.debug _ _ s).1 (
                h.quiet,
                (guard_iff weak _ _ s).1 (
                  neither (is_placeholder-long s.secret_key strong) long,
                  (check_url_iff found _ s).1 (
                    (h.url, h.parsed, h.IsPublic_url),
                    (guard_iff local _ _ s).1 (
                      neither h.remote h.remote_address,
                      (guard_iff anyone _ _ s).1 (
                        (proxies_iff s.trust_proxy_headers s.trusted_proxy_cidrs).1 h.named_proxies,
                        refl,
                      ),
                    ),
                  ),
                ),
              )),
      )

  -- the validator returns the settings as they are
  validated-same : (s t : Settings) → validate_production_configuration urlparse s ≡ ok t → s ≡ t
  unfolding validate_production_configuration
  validated-same s t h = elim (Bool-cases (not (lower s.app_env == "production"))) [
    | inl other ↦ cc
    | inr production ↦
        let h₀ = (past_guard (not (lower s.app_env == "production")) _ _ t production).0 h in
        let (_, h₁) = (guard_iff s.debug _ _ t).0 h₀ in
        let (_, h₂) =
          (guard_iff (is_placeholder s.secret_key || ltb (count s.secret_key) 64) _ _ t).0 h₁ in
        let (_, h₃) = (check_url_iff (urlparse s.public_backend_url) _ t).0 h₂ in
        let (_, h₄) =
          (guard_iff (contains "@localhost" s.database_url || contains "@127.0.0.1" s.database_url)
              _ _ t).0
            h₃ in
        let (_, h₅) =
          (guard_iff (s.trust_proxy_headers && is_empty s.trusted_proxy_cidrs) _ _ t).0 h₄ in
        cc
  ]

  validated-elsewhere :
      (s : Settings)
      → (lower s.app_env == "production") ≡ false
      → validate_production_configuration urlparse s ≡ ok s
  unfolding validate_production_configuration
  validated-elsewhere s other = cc

  validate_iff :
      (s t : Settings)
      → (validate_production_configuration urlparse s ≡ ok t)
        ↔ ((s ≡ t) × (lower s.app_env ≡ "production" → IsHardened urlparse s))
  validate_iff s t = (
    λ h.
        let same = validated-same s t h in
        (same, λ production. (checks_iff s production).0 (h ∙ ap ok (sym same))),
    λ (same, hardened). elim (Bool-cases (lower s.app_env == "production")) [
      | inl production ↦
          let name = (==_iff (lower s.app_env) "production").0 production in
          (checks_iff s name).1 (hardened name) ∙ ap ok same
      | inr other ↦ validated-elsewhere s other ∙ ap ok same
    ],
  )

  -- The program starts with the values that were read, their lists parsed and their addresses
  -- normalized, and in production exactly where those do not debug, sign with a key of 64 characters
  -- at least, have a public HTTPS address and a database elsewhere, and name the proxies they trust.
  pub load_iff :
      (read t : Settings) (origins cidrs : String ⊎ List String)
      → let s = normalized read origins cidrs in
        (load urlparse read origins cidrs ≡ ok t)
        ↔ ((s ≡ t) × (lower s.app_env ≡ "production" → IsHardened urlparse s))
  unfolding load
  load_iff read t origins cidrs = validate_iff (normalized read origins cidrs) t
