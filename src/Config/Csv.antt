-- ===== src/Config/Csv.antt =====
-- The lists of the settings, which are read from texts with commas.
use Prim.Native.Char.{Char, code}
use Prim.Native.String.{String as Text, [], ◌∷◌, ◌++◌}
use mathlib.Core.List.{[], ◌∷◌}
use text.Mathlib.TextLemmas.{nil-append, cons-append}
use smart_auth_with_kubernat.Prelude.{
  ℕ, String, Bool, true, false, List, inl, ◌≡◌, ◌≢◌, refl, sym, ap, ◌∙◌, arith, ◌==◌, string_eq,
  nat_eq, if◌then◌else◌,
}
use smart_auth_with_kubernat.Prelude.Texts.{strip}
use smart_auth_with_kubernat.Prelude.Splits.{split, onto_first, free}
use smart_auth_with_kubernat.Config.Checks.{==-false}
use smart_auth_with_kubernat.Config.Validators.{parse_csv_list, stripped}

-- an item as it stands in a list
pub record IsItem (item : String) : Type 0 where
  pub not_empty : item ≢ ""
  pub trimmed : strip item ≡ item
  pub comma_free : free b',' item ≡ true

pub data AreItems : List String → Type 0 where
  no_items : AreItems []
  item_then :
      (item : String) (items : List String) → IsItem item → AreItems items → AreItems (item ∷ items)

-- the items of a list of the environment
unfoldable pub join : List String → String
join [] = ""
join (item ∷ []) = item
join (item ∷ next ∷ items) = item ++ ("," ++ join (next ∷ items))

-- a text without the separator begins with another character, and goes on without it
free_first :
    (same rest : Bool) → (if same then false else rest) ≡ true → (same ≡ false) × (rest ≡ true)
free_first false rest h = (refl, h)
free_first true rest h = ground arith

-- the parts of a text that begins with another character than the separator
split-cons :
    (sep : ℕ) (c : Char) (s : Text)
    → (code c == sep) ≡ false
    → split sep (c ∷ s) ≡ onto_first c (split sep s)
unfolding split
split-cons sep c s apart =
    ap (λ b. if b then "" ∷ split sep s else onto_first c (split sep s)) apart

split-free : (sep : ℕ) (s : Text) → free sep s ≡ true → split sep s ≡ s ∷ []
unfolding split free
split-free sep [] h = refl
split-free sep (c ∷ s) h =
    let (apart, rest) = free_first (code c == sep) (free sep s) h in
    split-cons sep c s apart ∙ ap (onto_first c) (split-free sep s rest)

char-append : (c : Char) (rest : Text) → (c ∷ "") ++ rest ≡ c ∷ rest
char-append c rest = cons-append c "" rest ∙ ap (λ (t : Text). c ∷ t) (nil-append rest)

split-append :
    (s rest : Text) → free b',' s ≡ true → split b',' (s ++ ("," ++ rest)) ≡ s ∷ split b',' rest
unfolding split free
split-append [] rest h = ap (split b',') (nil-append ("," ++ rest) ∙ char-append _ rest)
split-append (c ∷ s) rest h =
    let (apart, after) = free_first (code c == b',') (free b',' s) h in
    ap (split b',') (cons-append c s ("," ++ rest))
    ∙ split-cons b',' c (s ++ ("," ++ rest)) apart
    ∙ ap (onto_first c) (split-append s rest after)

-- what is stripped of a list of items
stripped-items : (items : List String) → AreItems items → stripped items ≡ items
unfolding stripped
stripped-items _ no_items = refl
stripped-items _ (item_then item items here h) =
    let full : (strip item == "") ≡ false =
      (==-false (strip item) "").1 (λ empty. here.not_empty (sym here.trimmed ∙ empty)) in
    ap (λ b. if b then stripped items else strip item ∷ stripped items) full
    ∙ ap (λ x. x ∷ stripped items) here.trimmed
    ∙ ap (λ xs. item ∷ xs) (stripped-items items h)

-- the items of a text that lists some
split-join :
    (item : String) (items : List String)
    → AreItems (item ∷ items)
    → split b',' (join (item ∷ items)) ≡ item ∷ items
unfolding join
split-join item [] (item_then _ _ here h) = split-free b',' item here.comma_free
split-join item (next ∷ items) (item_then _ _ here h) =
    split-append item (join (next ∷ items)) here.comma_free
    ∙ ap (λ xs. item ∷ xs) (split-join next items h)

-- A list of items that are not empty, have no comma and no space at an end, is read back from its
-- text with commas.
pub parse-join : (items : List String) → AreItems items → parse_csv_list (inl (join items)) ≡ items
unfolding parse_csv_list join split stripped strip
parse-join [] h = refl
parse-join (item ∷ items) h =
    ap stripped (split-join item items h) ∙ stripped-items (item ∷ items) h
