-- ===== src/Prelude/Texts.antt =====
-- Python's `str` methods that the program calls, on native texts.
use Prim.Native.Char.{Char, code}
use Prim.Native.Nat.{ℕ, zero, suc, ◌-◌, ◌/◌, ◌%◌}
use Prim.Native.String.{String, [], ◌∷◌}
use mathlib.Core.Bool.{Bool, false, ◌&&◌, ◌||◌}
use mathlib.Core.Path.{◌≡◌, refl}
use mathlib.Core.Logic.{inl, inr}
use native.Mathlib.Omega.{arith}
use smart_auth_with_kubernat.Prelude.Tests.{leb, ◌==◌, nat_eq, if◌then◌else◌, Bool-cases}

-- the character of a text at an index, or `c` past the end
char_at_or : Char → ℕ → String → Char
char_at_or c n [] = c
char_at_or c zero (d ∷ s) = d
char_at_or c (suc n) (d ∷ s) = char_at_or c n s

lower_char : Char → Char
unfolding char_at_or
lower_char c =
    if leb 65 (code c) && leb (code c) 90
    then char_at_or c (code c - 65) "abcdefghijklmnopqrstuvwxyz"
    else c

-- `s.lower()`, of a text whose letters are ASCII
unfoldable pub lower : String → String
unfolding lower_char
lower [] = []
lower (c ∷ s) = lower_char c ∷ lower s

-- The text has the character U+0000.
abbrev pub has_nul : String → Bool
has_nul [] = false
has_nul (c ∷ s) = code c == 0 || has_nul s

char_at_or-no_nul :
    (c : Char) (n : ℕ) (s : String)
    → has_nul s ≡ false
    → (code c == 0) ≡ false
    → (code (char_at_or c n s) == 0) ≡ false
unfolding char_at_or
char_at_or-no_nul c n [] h k = k
char_at_or-no_nul c zero (d ∷ s) h k = ground arith
char_at_or-no_nul c (suc n) (d ∷ s) h k = ground (arith, char_at_or-no_nul c n s)

lower_char-no_nul : (c : Char) → (code c == 0) ≡ false → (code (lower_char c) == 0) ≡ false
unfolding lower_char
lower_char-no_nul c h = elim (Bool-cases (leb 65 (code c) && leb (code c) 90)) [
  | inl upper_case ↦
      rw upper_case (char_at_or-no_nul c (code c - 65) "abcdefghijklmnopqrstuvwxyz" refl h)
  | inr other ↦ rw other h
]

pub lower-no_nul : (s : String) → has_nul s ≡ false → has_nul (lower s) ≡ false
unfolding lower
lower-no_nul [] h = refl
lower-no_nul (c ∷ s) h = ground (arith, lower_char-no_nul c, lower-no_nul s)

upper_char : Char → Char
unfolding char_at_or
upper_char c =
    if leb 97 (code c) && leb (code c) 122
    then char_at_or c (code c - 97) "ABCDEFGHIJKLMNOPQRSTUVWXYZ"
    else c

-- `s.upper()`, of a text whose letters are ASCII
unfoldable pub upper : String → String
unfolding upper_char
upper [] = []
upper (c ∷ s) = upper_char c ∷ upper s

-- `c.isspace()`
is_space : Char → Bool
is_space c =
    let n = code c in
    leb 9 n && leb n 13
    || leb 28 n && leb n 32
    || n == 133
    || n == 160
    || n == 5760
    || leb 8192 n && leb n 8202
    || n == 8232
    || n == 8233
    || n == 8239
    || n == 8287
    || n == 12288

lstrip : String → String
unfolding is_space
lstrip [] = []
lstrip (c ∷ s) = let rest = lstrip s in if is_space c then rest else c ∷ s

drop_space : Char → String → String
drop_space c [] = if is_space c then [] else c ∷ []
drop_space c (d ∷ s) = c ∷ d ∷ s

rstrip : String → String
unfolding drop_space is_space
rstrip [] = []
rstrip (c ∷ s) = drop_space c (rstrip s)

-- `s.strip()`
unfoldable pub strip : String → String
unfolding lstrip rstrip
strip s = rstrip (lstrip s)

-- `s.split(sep)[0]`, for a separator of one character
unfoldable pub before : ℕ → String → String
before sep [] = []
before sep (c ∷ s) = let rest = before sep s in if code c == sep then [] else c ∷ rest

strip_test : strip (before b',' " 198.51.100.25 , 10.0.0.1") ≡ "198.51.100.25"
unfolding strip before
strip_test = refl

lower_test : lower "Demo@Example.com" ≡ "demo@example.com"
unfolding lower
lower_test = refl

digit : ℕ → Char
unfolding char_at_or
digit n = char_at_or "0" n "0123456789"

digits_onto : ℕ → ℕ → String → String
unfolding digit
digits_onto zero n s = s
digits_onto (suc fuel) n s =
    let rest = digits_onto fuel (n / 10) (digit (n % 10) ∷ s) in
    if leb n 9 then digit n ∷ s else rest

-- `str(n)`; a number has fewer digits than itself and one more
unfoldable pub decimal : ℕ → String
unfolding digits_onto
decimal n = digits_onto (suc n) n []

decimal_test : decimal 503 ≡ "503"
unfolding decimal
decimal_test = refl
