-- ===== src/Tests/Tokens.antt =====
-- Tokens as texts, for the platform of the tests: each character behind a mark, a number in unary.
use Prim.Native.Char.{Char, code}
use Prim.Native.String.{String, [], ◌∷◌}
use package.text.Mathlib.TextLemmas.{cons-ne-nil}
use smart_auth_with_kubernat.Prelude.{
  ℕ, zero, suc, ◌+◌, ◌*◌, ◌/◌, ◌%◌, ◌≢◌, ◌≡◌, refl, ap, ◌&&◌, Option, none, some, ◌==◌, nat_eq, leb,
  ltb, if◌then◌else◌, arith, Option-cases,
}
use mathlib.Core.List
use mathlib.Core.Option
use smart_auth_with_kubernat.Platform.Libraries.{Payload, Claims, claims, JsonObject}
use smart_auth_with_kubernat.Platform.Redis.{micro}

-- the texts of the marks
abbrev more : Char
more = "1"

abbrev done : Char
done = "0"

unfoldable pub put_text : String → String → String
put_text [] rest = done ∷ rest
put_text (c ∷ s) rest = more ∷ c ∷ put_text s rest

unfoldable pub take_text : String → Option (String × String)
take_text [] = none
take_text (m ∷ []) = if code m == 48 then some ([], []) else none
take_text (m ∷ c ∷ s) =
    let later = Option.map (λ (t, rest). (c ∷ t, rest)) (take_text s) in
    if code m == 48 then some ([], c ∷ s) else later

take_text-put_text : (s rest : String) → take_text (put_text s rest) ≡ some (s, rest)
unfolding put_text take_text
take_text-put_text [] [] = refl
take_text-put_text [] (c ∷ rest) = refl
take_text-put_text (c ∷ s) rest = rw (take_text-put_text s rest)

unfoldable pub put_unary : ℕ → String → String
put_unary zero rest = done ∷ rest
put_unary (suc n) rest = more ∷ put_unary n rest

unfoldable pub take_unary : String → Option (ℕ × String)
take_unary [] = none
take_unary (m ∷ s) =
    let later = Option.map (λ (n, rest). (suc n, rest)) (take_unary s) in
    if code m == 48 then some (0, s) else later

take_unary-put_unary : (n : ℕ) (rest : String) → take_unary (put_unary n rest) ≡ some (n, rest)
unfolding put_unary take_unary
take_unary-put_unary zero rest = refl
take_unary-put_unary (suc n) rest = rw (take_unary-put_unary n rest)

infixl 5 ◌>>=◌
abbrev ◌>>=◌ {ℓ κ} : {A : Type ℓ} {B : Type κ} → Option A → (A → Option B) → Option B
none >>= k = none
some a >>= k = k a

-- the thousands, then what is left
unfoldable pub put_number : ℕ → String → String
put_number n rest = put_unary (n / 1000) (put_unary (n % 1000) rest)

unfoldable pub take_number : String → Option (ℕ × String)
take_number s = do (high, a) ← take_unary s; (low, b) ← take_unary a; some (high * 1000 + low, b)

pub take_number-put_number :
    (n : ℕ) (rest : String) → take_number (put_number n rest) ≡ some (n, rest)
unfolding put_number take_number
take_number-put_number n rest =
    let whole : n / 1000 * 1000 + n % 1000 ≡ n = omega arith in
    simp take_unary-put_unary (ap (λ k. some (k, rest)) whole)

put_unary-ne-empty : (n : ℕ) (s : String) → put_unary n s ≢ ""
unfolding put_unary
put_unary-ne-empty zero s = cons-ne-nil _ _
put_unary-ne-empty (suc n) s = cons-ne-nil _ _

pub put_number-ne-empty : (n : ℕ) (s : String) → put_number n s ≢ ""
unfolding put_number
put_number-ne-empty n s = put_unary-ne-empty (n / 1000) _

unfoldable pub encode : Payload → String
encode p =
    put_number (p.iat / micro)
      (put_number (p.exp / micro) (put_text p.sub (put_text p.type (put_text p.jti ""))))

unfoldable pub parse : String → Option (ℕ × ℕ × Claims)
parse token = do
  (iat, a) ← take_number token
  (exp, b) ← take_number a
  (sub, c) ← take_text b
  (type, d) ← take_text c
  (jti, e) ← take_text d
  some (iat, exp, record { sub = some sub; type = some type; jti = some jti })

parse-encode : (p : Payload) → parse (encode p) ≡ some (p.iat / micro, p.exp / micro, claims p)
unfolding parse encode
parse-encode p = simp (take_number-put_number, take_text-put_text)

abbrev pub valid_at : ℕ → ℕ × ℕ × Claims → Option Claims
valid_at now (iat, exp, c) = if leb iat (now / micro) && ltb (now / micro) exp then some c else none

unfoldable pub decode : ℕ → String → Option Claims
decode now token = parse token >>= valid_at now

pub decode-encode :
    (p : Payload) (now : ℕ)
    → decode now (encode p) ≡ valid_at now (p.iat / micro, p.exp / micro, claims p)
unfolding decode
decode-encode p now = rw parse-encode

pub decode_stable :
    (token : String) (now later : ℕ) (c d : Claims)
    → decode now token ≡ some c
    → decode later token ≡ some d
    → c ≡ d
unfolding decode
decode_stable token now later c d h k = ground (arith, Option-cases (parse token))

-- a JSON object: each entry behind a mark; null is marked apart from a text
unfoldable pub put_value : Option String → String → String
put_value none rest = done ∷ rest
put_value (some s) rest = more ∷ put_text s rest

unfoldable pub take_value : String → Option (Option String × String)
take_value [] = none
take_value (m ∷ s) =
    if code m == 48 then some (none, s) else do (v, rest) ← take_text s; some (some v, rest)

take_value-put_value :
    (v : Option String) (rest : String) → take_value (put_value v rest) ≡ some (v, rest)
unfolding put_value take_value
take_value-put_value none rest = refl
take_value-put_value (some s) rest = rw take_text-put_text

unfoldable pub put_entries : JsonObject → String
put_entries List.[] = done ∷ []
put_entries (List.◌∷◌ (k, v) o) = more ∷ put_text k (put_value v (put_entries o))

unfoldable pub take_entries : ℕ → String → Option JsonObject
take_entries zero s = none
take_entries (suc fuel) [] = none
take_entries (suc fuel) (m ∷ s) = if code m == 48 then some List.[] else do
  (k, a) ← take_text s
  (v, b) ← take_value a
  o ← take_entries fuel b
  some (List.◌∷◌ (k, v) o)

unfoldable pub size : JsonObject → ℕ
size List.[] = 1
size (List.◌∷◌ e o) = suc (size o)

take_entries-put_entries : (o : JsonObject) → take_entries (size o) (put_entries o) ≡ some o
unfolding put_entries take_entries size
take_entries-put_entries List.[] = refl
take_entries-put_entries (List.◌∷◌ (k, v) o) =
    rw (take_text-put_text, take_value-put_value, take_entries-put_entries o)

unfoldable pub put_object : JsonObject → String
put_object o = put_unary (size o) (put_entries o)

unfoldable pub take_object : String → Option JsonObject
take_object s = do (fuel, rest) ← take_unary s; take_entries fuel rest

pub take_object-put_object : (o : JsonObject) → take_object (put_object o) ≡ some o
unfolding put_object take_object
take_object-put_object o = rw (take_unary-put_unary, take_entries-put_entries o)

pub put_object-ne-empty : (o : JsonObject) → put_object o ≢ ""
unfolding put_object
put_object-ne-empty o = put_unary-ne-empty (size o) _
