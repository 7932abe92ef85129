-- ===== src/Prelude/Splits.antt =====
-- Python's `split`, `rstrip` and `in`, on native texts.
use Prim.Native.Char.{Char, code}
use Prim.Native.Nat.{ℕ, zero, suc, ◌-◌}
use Prim.Native.String.{String, [], ◌∷◌, ◌++◌, count}
use mathlib.Core.Bool.{Bool, true, false, ◌&&◌, ◌||◌}
use mathlib.Core.List.{List, [], ◌∷◌}
use mathlib.Core.Path.{◌≡◌, refl}
use smart_auth_with_kubernat.Prelude.Tests.{◌==◌, nat_eq, if◌then◌else◌}

-- a character before the first of the parts
abbrev pub onto_first : Char → List String → List String
onto_first c [] = (c ∷ []) ∷ []
onto_first c (part ∷ parts) = (c ∷ part) ∷ parts

-- `s.split(sep)`, for a separator of one character
unfoldable pub split : ℕ → String → List String
split sep [] = [] ∷ []
split sep (c ∷ s) = let rest = split sep s in if code c == sep then [] ∷ rest else onto_first c rest

abbrev pub attach : ℕ → Char → String → String
attach sep c [] = if code c == sep then [] else c ∷ []
attach sep c (d ∷ s) = c ∷ d ∷ s

-- `s.rstrip(sep)`, for a text of one character
unfoldable pub strip_end : ℕ → String → String
strip_end sep [] = []
strip_end sep (c ∷ s) = attach sep c (strip_end sep s)

abbrev pub starts_with : String → String → Bool
starts_with [] s = true
starts_with (c ∷ p) [] = false
starts_with (c ∷ p) (d ∷ s) = code c == code d && starts_with p s

-- `part in s`
unfoldable pub contains : String → String → Bool
contains part [] = starts_with part []
contains part (c ∷ s) = starts_with part (c ∷ s) || contains part s

-- the text has no such character
unfoldable pub free : ℕ → String → Bool
free sep [] = true
free sep (c ∷ s) = let rest = free sep s in if code c == sep then false else rest

-- how many characters of a text are left of the one that was replaced last
unfoldable pub replace_from : String → String → ℕ → String → String
replace_from old new skip [] = []
replace_from old new (suc skip) (c ∷ s) = replace_from old new skip s
replace_from old new zero (c ∷ s) =
    let replaced = replace_from old new (count old - 1) s in
    let kept = replace_from old new zero s in
    if starts_with old (c ∷ s) then new ++ replaced else c ∷ kept

-- `s.replace(old, new)`, for an `old` that is not empty
unfoldable pub replace : String → String → String → String
unfolding replace_from
replace old new s = replace_from old new zero s

replace_test : replace "ab" "x" "aabcab" ≡ "axcx"
unfolding replace
replace_test = refl

split_test : split 44 "a,,b" ≡ "a" ∷ "" ∷ "b" ∷ []
unfolding split
split_test = refl

strip_end_test : strip_end 47 "http://a//" ≡ "http://a"
unfolding strip_end
strip_end_test = refl

contains_test : contains "@b" "a@@b" ≡ true
unfolding contains
contains_test = refl
