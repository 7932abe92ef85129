-- ===== src/Migrations/Environment/Url.antt =====
-- The address that the migrations use: the application's, with another driver.

use Prim.Native.String.{String as Text, [], ◌∷◌, ◌++◌}
use text.Mathlib.TextLemmas.{nil-append, cons-append}
use smart_auth_with_kubernat.Prelude.{zero, true, ◌≡◌, refl, sym, ap, ◌∙◌, arith, nat_eq}
use smart_auth_with_kubernat.Platform.Alembic.{raw_percent}
use smart_auth_with_kubernat.Prelude.Splits.{replace, replace_from, free}

-- The texts one after the other, by the characters of the first.
abbrev onto : Text → Text → Text
onto [] s = s
onto (c ∷ p) s = c ∷ onto p s

append-onto : (p s : Text) → p ++ s ≡ onto p s
append-onto [] s = nil-append s
append-onto (c ∷ p) s = cons-append c p s ∙ ap (λ (t : Text). c ∷ t) (append-onto p s)

replace_from-free : (s : Text) → free b'+' s ≡ true → replace_from "+asyncpg" "+psycopg" zero s ≡ s
unfolding replace_from free
replace_from-free [] h = refl
replace_from-free (c ∷ s) h = ground (arith, replace_from-free s)

replace_from-onto :
    (scheme rest : Text)
    → free b'+' scheme ≡ true
    → free b'+' rest ≡ true
    → replace_from "+asyncpg" "+psycopg" zero (onto scheme (onto "+asyncpg" rest))
      ≡ onto scheme (onto "+psycopg" rest)
unfolding replace_from free
replace_from-onto [] rest h k =
    ap (λ (t : Text). "+psycopg" ++ t) (replace_from-free rest k) ∙ append-onto "+psycopg" rest
replace_from-onto (c ∷ scheme) rest h k = ground (arith, replace_from-onto scheme rest)

-- In an address with one plus sign, that of its driver, the driver is replaced.
pub replace-driver :
    (scheme rest : Text)
    → free b'+' scheme ≡ true
    → free b'+' rest ≡ true
    → replace "+asyncpg" "+psycopg" (scheme ++ ("+asyncpg" ++ rest))
      ≡ scheme ++ ("+psycopg" ++ rest)
unfolding replace
replace-driver scheme rest h k =
    let written = λ (driver : Text).
      append-onto scheme (driver ++ rest) ∙ ap (onto scheme) (append-onto driver rest) in
    ap (replace_from "+asyncpg" "+psycopg" zero) (written "+asyncpg")
    ∙ replace_from-onto scheme rest h k
    ∙ sym (written "+psycopg")

raw_percent-onto : (p s : Text) → free b'%' p ≡ true → raw_percent (onto p s) ≡ raw_percent s
unfolding raw_percent free
raw_percent-onto [] s h = refl
raw_percent-onto (c ∷ p) s h = ground (arith, raw_percent-onto p s)

-- The other driver and what stands before it have no percent sign.
pub raw_percent-append :
    (scheme rest : Text)
    → free b'%' scheme ≡ true
    → raw_percent (scheme ++ ("+psycopg" ++ rest)) ≡ raw_percent rest
unfolding free
raw_percent-append scheme rest h =
    ap raw_percent
      (append-onto scheme ("+psycopg" ++ rest) ∙ ap (onto scheme) (append-onto "+psycopg" rest))
    ∙ raw_percent-onto scheme (onto "+psycopg" rest) h
    ∙ raw_percent-onto "+psycopg" rest refl
