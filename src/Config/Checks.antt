-- ===== src/Config/Checks.antt =====
-- The single tests that the validators make.
use Prim.Native.String.{count}
use smart_auth_with_kubernat.Prelude.{
  String, Bool, true, false, not, ◌&&◌, ◌||◌, Option, none, some, List, [], ◌∷◌, inl, inr, ◌≡◌, ◌≢◌,
  ◌↔◌, ◌≤◌, ◌<◌, refl, ap, subst, arith, ◌==◌, ==_iff, string_eq, if◌then◌else◌, Bool-cases,
}
use smart_auth_with_kubernat.Config.{Settings}
use smart_auth_with_kubernat.Config.Validators.{Url, is_local, is_empty, is_placeholder}
use smart_auth_with_kubernat.Exec.{Failure, Result, ok, err}

-- an address by HTTPS that is not the machine's own
pub record IsPublic (url : Url) : Type 0 where
  pub secure : url.scheme ≡ "https"
  pub hosted : url.netloc ≢ ""
  pub not_named_local : url.hostname ≢ some "localhost"
  pub not_loopback : url.hostname ≢ some "127.0.0.1"

pub guard_iff :
    (b : Bool) (e : Failure) (r : Result Settings) (s : Settings)
    → ((if b then err e else r) ≡ ok s) ↔ ((b ≡ false) × (r ≡ ok s))
guard_iff false e r s = (λ h. (refl, h), λ (_, h). h)
guard_iff true e r s = (λ h. ground arith, λ (h, _). ground arith)

pub past_guard :
    (b : Bool) (r r' : Result Settings) (s : Settings)
    → b ≡ false
    → ((if b then r else r') ≡ ok s) ↔ (r' ≡ ok s)
past_guard false r r' s h = (λ k. k, λ k. k)
past_guard true r r' s h = ground arith

pub ||_iff : (a b : Bool) → (a || b ≡ false) ↔ ((a ≡ false) × (b ≡ false))
||_iff false b = (λ h. (refl, h), λ (_, h). h)
||_iff true b = (λ h. ground arith, λ (h, _). ground arith)

pub neither : {a b : Bool} → a ≡ false → b ≡ false → a || b ≡ false
neither {a} {b} h k = (||_iff a b).1 (h, k)

pub ==-false : (x y : String) → ((x == y) ≡ false) ↔ (x ≢ y)
==-false x y = (
  λ h same. let yes = (==_iff x y).1 same in ground arith,
  λ apart. elim (Bool-cases (x == y)) [ inl h ↦ absurd (apart ((==_iff x y).0 h)) | inr h ↦ h ],
)

-- a key of 64 characters is no shorter text
long-apart : (key short : String) → count short < 64 → 64 ≤ count key → (key == short) ≡ false
long-apart key short few many =
    (==-false key short).1
      (λ same. let l = subst (λ (k : String). 64 ≤ count k) same many in omega arith)

pub is_placeholder-long : (key : String) → 64 ≤ count key → is_placeholder key ≡ false
is_placeholder-long key many =
    neither
      (neither (long-apart key "" (omega arith) many)
        (long-apart key "change-me" (omega arith) many))
      (long-apart key "change-this-in-production" (omega arith) many)

some-apart : (x y : String) → (x ≢ y) ↔ (some x ≢ some y)
some-apart x y = (λ apart same. apart (cc), λ apart same. apart (ap some same))

is_local_iff :
    (h : Option String) → (is_local h ≡ false) ↔ ((h ≢ some "localhost") × (h ≢ some "127.0.0.1"))
is_local_iff none = (λ h. (λ same. ground arith, λ same. ground arith), λ h. refl)
is_local_iff (some name) = (
  λ h.
      let (a, b) = (||_iff (name == "localhost") (name == "127.0.0.1")).0 h in
      (
        (some-apart name "localhost").0 ((==-false name "localhost").0 a),
        (some-apart name "127.0.0.1").0 ((==-false name "127.0.0.1").0 b),
      ),
  λ (a, b).
      neither ((==-false name "localhost").1 ((some-apart name "localhost").1 a))
        ((==-false name "127.0.0.1").1 ((some-apart name "127.0.0.1").1 b)),
)

is_empty_iff : (xs : List String) → (is_empty xs ≡ false) ↔ (xs ≢ [])
is_empty_iff [] = (λ h. ground arith, λ h. absurd (h refl))
is_empty_iff (x ∷ xs) = (λ h same. ground arith, λ h. refl)

pub not_iff : (b : Bool) → (not b ≡ false) ↔ (b ≡ true)
not_iff false = (λ h. ground arith, λ h. ground arith)
not_iff true = (λ h. refl, λ h. refl)

-- the tests of an address
pub url_iff :
    (url : Url)
    → ((not (url.scheme == "https") || url.netloc == "" ≡ false) × (is_local url.hostname ≡ false))
      ↔ IsPublic url
url_iff url = (
  λ (good, public).
      let (a, b) = (||_iff (not (url.scheme == "https")) (url.netloc == "")).0 good in
      let (name, address) = (is_local_iff url.hostname).0 public in
      record {
        secure = (==_iff url.scheme "https").0 ((not_iff (url.scheme == "https")).0 a);
        hosted = (==-false url.netloc "").0 b;
        not_named_local = name;
        not_loopback = address;
      },
  λ h. (
    neither ((not_iff (url.scheme == "https")).1 ((==_iff url.scheme "https").1 h.secure))
        ((==-false url.netloc "").1 h.hosted),
    (is_local_iff url.hostname).1 (h.not_named_local, h.not_loopback),
  ),
)

pub proxies_iff :
    (trust : Bool) (cidrs : List String)
    → (trust && is_empty cidrs ≡ false) ↔ (trust ≡ true → cidrs ≢ [])
proxies_iff false cidrs = (λ h k. ground arith, λ h. refl)
proxies_iff true cidrs = (λ h k. (is_empty_iff cidrs).0 h, λ h. (is_empty_iff cidrs).1 (h refl))
