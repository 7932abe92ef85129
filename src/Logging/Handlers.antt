-- ===== src/Logging/Handlers.antt =====
-- Who handles a record once the logging is configured.
use smart_auth_with_kubernat.Prelude.{
  String, ◌≡◌, refl, ◌⊎◌, inl, inr, Bool, true, false, ◌||◌, List, [], ◌∷◌, ◌++◌, arith, Bool-cases,
  if◌then◌else◌,
}
use smart_auth_with_kubernat.Prelude.Texts.{upper}
use smart_auth_with_kubernat.Exec.{ok}
use smart_auth_with_kubernat.Logging.{
  Handler, Logger, Name, Logs, same_name, change, open_logger, open_all, uvicorn_loggers,
  stdout_handler, is_level, configure_logging,
}

-- `Logger.callHandlers`: the handlers that get a record of a logger. It goes up to the root while
-- the loggers propagate.
unfoldable pub handled_by : (Name → Logger) → Name → List Handler
handled_by loggers [] = (loggers []).handlers
handled_by loggers (part ∷ parent) =
    let above = handled_by loggers parent in
    let logger = loggers (part ∷ parent) in
    logger.handlers ++ (if logger.propagate then above else [])

abbrev pub is_one_of : List Name → Name → Bool
is_one_of [] name = false
is_one_of (n ∷ names) name = same_name name n || is_one_of names name

-- It has no handlers and propagates.
abbrev pub IsBare : Logger → Type 0
IsBare logger = (logger.handlers ≡ []) × (logger.propagate ≡ true)

-- A logger and those above it, the root aside, are of uvicorn, or have no handlers and propagate.
abbrev pub Plain : (Name → Logger) → Name → Type 0
Plain loggers [] = Unit
Plain loggers (part ∷ parent) =
    ((is_one_of uvicorn_loggers (part ∷ parent) ≡ true) ⊎ IsBare (loggers (part ∷ parent)))
    × Plain loggers parent

open_all-other :
    (names : List Name) (loggers : Name → Logger) (name : Name)
    → is_one_of names name ≡ false
    → open_all names loggers name ≡ loggers name
open_all-other [] loggers name h = refl
open_all-other (n ∷ names) loggers name h =
    ground (arith, open_all-other names (change n open_logger loggers) name)

open_all-IsBare :
    (names : List Name) (loggers : Name → Logger) (name : Name)
    → is_one_of names name ≡ true
    → IsBare (open_all names loggers name)
open_all-IsBare [] loggers name h = ground arith
open_all-IsBare (n ∷ names) loggers name h =
    let loggers' = change n open_logger loggers in
    elim (Bool-cases (is_one_of names name)) [
      | inl later ↦ open_all-IsBare names loggers' name later
      | inr last ↦
          let here : same_name name n ≡ true = ground arith in
          rw (open_all-other names loggers' name last, here) (refl, refl)
    ]

-- A logger that is not the root's is opened, or as it was.
open_logger-IsBare :
    (loggers : Name → Logger) (part : String) (parent : Name)
    → (is_one_of uvicorn_loggers (part ∷ parent) ≡ true) ⊎ IsBare (loggers (part ∷ parent))
    → IsBare (open_all uvicorn_loggers loggers (part ∷ parent))
open_logger-IsBare loggers part parent (inl named) =
    open_all-IsBare uvicorn_loggers loggers (part ∷ parent) named
open_logger-IsBare loggers part parent (inr open_before) =
    elim (Bool-cases (is_one_of uvicorn_loggers (part ∷ parent))) [
      | inl named ↦ open_all-IsBare uvicorn_loggers loggers (part ∷ parent) named
      | inr other ↦ rw (open_all-other uvicorn_loggers loggers (part ∷ parent) other) open_before
    ]

handled_by-open_all :
    (loggers : Name → Logger) (name : Name)
    → Plain loggers name
    → handled_by (open_all uvicorn_loggers loggers) name ≡ (loggers []).handlers
unfolding handled_by
handled_by-open_all loggers [] plain = refl
handled_by-open_all loggers (part ∷ parent) (here, plain) =
    let (none_here, goes_up) = open_logger-IsBare loggers part parent here in
    rw (none_here, goes_up) (handled_by-open_all loggers parent plain)

Plain-change_root :
    (f : Logger → Logger) (loggers : Name → Logger) (name : Name)
    → Plain loggers name
    → Plain (change [] f loggers) name
Plain-change_root f loggers [] plain = tt
Plain-change_root f loggers (part ∷ parent) (here, plain) =
    (here, Plain-change_root f loggers parent plain)

-- With a level that `logging` knows, whatever handlers there were before: a record of the root, of a
-- logger of uvicorn, and of any other that has no handlers and propagates, as those above it, is
-- handled exactly once, by the new handler. The root gets the level, and the loggers that are
-- neither the root nor of uvicorn stay as they were.
pub configured-handles :
    (log_level : String) (logs : Logs) (name : Name)
    → is_level (upper log_level) ≡ true
    → Plain logs.loggers name
    → let (result, configured) = configure_logging log_level logs in
      (result ≡ ok tt)
      × (handled_by configured.loggers name ≡ stdout_handler ∷ [])
      × ((configured.loggers []).level ≡ upper log_level)
      × ((other : Name)
          → is_one_of uvicorn_loggers other ≡ false
          → same_name other [] ≡ false
          → configured.loggers other ≡ logs.loggers other)
unfolding configure_logging
configured-handles log_level logs name known plain =
    let handle = λ (logger : Logger). record logger { handlers = stdout_handler ∷ [] } in
    let limit = λ (logger : Logger). record logger { level = upper log_level } in
    let root = change [] handle logs.loggers in
    rw known (
      refl,
      handled_by-open_all (change [] limit root) name
          (Plain-change_root limit root name (Plain-change_root handle logs.loggers name plain)),
      refl,
      λ other not_uvicorn not_root.
          rw (open_all-other uvicorn_loggers (change [] limit root) other not_uvicorn, not_root)
            refl,
    )
