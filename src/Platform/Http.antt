-- ===== src/Platform/Http.antt =====
-- httpx: the requests that the OAuth service sends, and JSON as `response.json()` reads it. Its
-- numbers are those that the providers send, which are not negative and not fractions.
use smart_auth_with_kubernat.Prelude.{
  ℕ, String, Bool, true, false, Option, none, some, List, not, ◌==◌, nat_eq, string_eq,
  if◌then◌else◌,
}

mutual
  pub data Json : Type 0 where
    null : Json
    boolean : Bool → Json
    number : ℕ → Json
    text : String → Json
    array : Items → Json
    object : Members → Json

  pub data Items : Type 0 where
    nil : Items
    cons : Json → Items → Items

  pub data Members : Type 0 where
    end : Members
    member : String → Json → Members → Members

-- Python's truth of a value
abbrev pub truth : Json → Bool
truth null = false
truth (boolean b) = b
truth (number n) = not (n == 0)
truth (text s) = not (s == "")
truth (array nil) = false
truth (array (cons v l)) = true
truth (object end) = false
truth (object (member k v m)) = true

-- the value of a key; a repeated key has its last value
abbrev pub member? : String → Members → Option Json
member? k end = none
member? k (member j v m) = elim (member? k m) [
  | some later ↦ some later
  | none ↦ if j == k then some v else none
]

pub data HttpCall : Type 0 where
  post : (url : String) (headers form : List (String × String)) → HttpCall
  get : (url : String) (headers : List (String × String)) → HttpCall

-- `body` is `none` where it is no JSON
pub record HttpReply : Type 0 where
  pub status_code : ℕ
  pub body : Option Json
