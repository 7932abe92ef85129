-- ===== src/Platform/Redis.antt =====
-- Redis: the commands that the program sends, and what they are documented to do to the keys. A
-- key whose deadline has passed is gone. Times are microseconds.
use smart_auth_with_kubernat.Prelude.{
  ℕ, ◌+◌, ◌-◌, ◌*◌, ◌/◌, String, ◌≡◌, Option, none, some, ◌==◌, nat_eq, string_eq, leb,
  if◌then◌else◌,
}

pub data Value : Type 0 where
  plain : String → Value
  counter : ℕ → Value

pub record Entry : Type 0 where
  pub value : Value
  pub deadline : Option ℕ

abbrev pub micro : ℕ
micro = 1_000_000

abbrev passed : ℕ → Entry → Option Entry → Option Entry
passed now e o = elim e.deadline [ none ↦ o | some d ↦ if leb d now then none else o ]

-- what a command sees of a key at a time
abbrev pub live : ℕ → Option Entry → Option Entry
live now none = none
live now (some e) = passed now e (some e)

abbrev pub as_text : Option Entry → Option String
as_text none = none
as_text (some e) = elim e.value [ plain s ↦ some s | counter n ↦ none ]

-- INCR takes a missing key for 0.
abbrev pub as_count : Option Entry → ℕ
as_count none = 0
as_count (some e) = elim e.value [ plain s ↦ 0 | counter n ↦ n ]

abbrev pub deadline_of : Option Entry → Option ℕ
deadline_of none = none
deadline_of (some e) = e.deadline

-- INCR keeps a key's deadline.
abbrev pub counted : Option Entry → Entry
counted o = record { value = counter (as_count o + 1); deadline = deadline_of o }

abbrev pub expiring : ℕ → Option Entry → Option Entry
expiring d none = none
expiring d (some e) = some (record e { deadline = some d })

-- TTL: the seconds that are left, rounded to the nearest, `none` for -1 (no deadline) and -2 (no key).
-- Redis keeps milliseconds.
abbrev pub seconds_left : ℕ → Option Entry → Option ℕ
seconds_left now none = none
seconds_left now (some e) = elim e.deadline [
  | none ↦ none
  | some d ↦ some ((d / 1000 - now / 1000 + 500) / 1000)
]

pub record Redis : Type 1 where
  pub Store : Type 0
  pub entries : Store → String → Option Entry
  pub get : ℕ → String → Store → Option String
  pub setex : ℕ → String → ℕ → String → Store → Store
  pub delete : String → Store → Store
  pub incr_value : ℕ → String → Store → ℕ
  pub incr : ℕ → String → Store → Store
  pub expire : ℕ → String → ℕ → Store → Store
  pub ttl : ℕ → String → Store → Option ℕ

pub record IsRedis (R : Redis) : Type 0 where
  pub get_lem :
      (now : ℕ) (k : String) (s : R.Store) → R.get now k s ≡ as_text (live now (R.entries s k))
  pub entries-setex :
      (now : ℕ) (k : String) (n : ℕ) (v : String) (s : R.Store) (j : String)
      → R.entries (R.setex now k n v s) j ≡ (
          if k == j
          then some (record { value = plain v; deadline = some (now + n * micro) })
          else R.entries s j)
  pub entries-delete :
      (k : String) (s : R.Store) (j : String)
      → R.entries (R.delete k s) j ≡ (if k == j then none else R.entries s j)
  pub incr_value_lem :
      (now : ℕ) (k : String) (s : R.Store)
      → R.incr_value now k s ≡ as_count (live now (R.entries s k)) + 1
  pub entries-incr :
      (now : ℕ) (k : String) (s : R.Store) (j : String)
      → R.entries (R.incr now k s) j
        ≡ (if k == j then some (counted (live now (R.entries s k))) else R.entries s j)
  pub entries-expire :
      (now : ℕ) (k : String) (n : ℕ) (s : R.Store) (j : String)
      → R.entries (R.expire now k n s) j
        ≡ (if k == j then expiring (now + n * micro) (live now (R.entries s k)) else R.entries s j)
  pub ttl_lem :
      (now : ℕ) (k : String) (s : R.Store)
      → R.ttl now k s ≡ seconds_left now (live now (R.entries s k))
