-- ===== src/Logging.antt =====
-- app/core/logging.py, on the loggers of Python's `logging`.
pub mod Handlers
use smart_auth_with_kubernat.Prelude.{
  String, Bool, true, false, ◌&&◌, ◌||◌, Option, none, some, List, [], ◌∷◌, ◌++◌, ◌==◌, string_eq,
  if◌then◌else◌,
}
use smart_auth_with_kubernat.Prelude.Texts.{upper}
use smart_auth_with_kubernat.Exec.{Result, ok, err, exception}

-- the processors of structlog that the program names
pub data Processor : Type 0 where
  merge_contextvars : Processor
  add_log_level : Processor
  add_logger_name : Processor
  -- `TimeStamper(fmt="iso", utc=True)`
  timestamper : Processor
  json_renderer : Processor
  positional_arguments_formatter : Processor
  stack_info_renderer : Processor
  format_exc_info : Processor
  wrap_for_formatter : Processor

-- `ProcessorFormatter(processor=processor, foreign_pre_chain=foreign_pre_chain)`
pub record Formatter : Type 0 where
  pub processor : Processor
  pub foreign_pre_chain : List Processor

-- a stream by its name, and the formatter that was set
pub record Handler : Type 0 where
  pub stream : String
  pub formatter : Option Formatter

pub record Logger : Type 0 where
  pub handlers : List Handler
  pub propagate : Bool
  pub level : String

-- the parts of a logger's name, the last one first: the root has none, and the parent's are the rest
abbrev pub Name : Type 0
Name = List String

abbrev pub same_name : Name → Name → Bool
same_name [] [] = true
same_name (x ∷ xs) (y ∷ ys) = x == y && same_name xs ys
same_name _ _ = false

-- the loggers, and the processors that structlog is configured with
pub record Logs : Type 0 where
  pub loggers : Name → Logger
  pub processors : List Processor

-- an assignment to `logging.getLogger(name)`
abbrev pub change : Name → (Logger → Logger) → (Name → Logger) → Name → Logger
change name f loggers other = if same_name other name then f (loggers other) else loggers other

-- `logger.handlers.clear()`, `logger.propagate = True`
abbrev pub open_logger : Logger → Logger
open_logger logger = record logger { handlers = []; propagate = true }

abbrev pub open_all : List Name → (Name → Logger) → Name → Logger
open_all [] loggers = loggers
open_all (name ∷ names) loggers = open_all names (change name open_logger loggers)

-- the names that `setLevel` knows
abbrev pub is_level : String → Bool
is_level level =
    level == "CRITICAL"
    || level == "FATAL"
    || level == "ERROR"
    || level == "WARNING"
    || level == "WARN"
    || level == "INFO"
    || level == "DEBUG"
    || level == "NOTSET"

abbrev pub shared_processors : List Processor
shared_processors = merge_contextvars ∷ add_log_level ∷ add_logger_name ∷ timestamper ∷ []

abbrev pub stdout_handler : Handler
stdout_handler = record {
  stream = "stdout";
  formatter = some (record { processor = json_renderer; foreign_pre_chain = shared_processors });
}

abbrev pub uvicorn_loggers : List Name
uvicorn_loggers = ("uvicorn" ∷ []) ∷ ("error" ∷ "uvicorn" ∷ []) ∷ ("access" ∷ "uvicorn" ∷ []) ∷ []

-- `setLevel` raises before the loggers of uvicorn and structlog are changed.
unfoldable pub configure_logging : String → Logs → Result {0} Unit × Logs
configure_logging log_level logs =
    let root =
      change [] (λ logger. record logger { handlers = stdout_handler ∷ [] }) logs.loggers in
    let level = upper log_level in
    if is_level level
    then (
      ok tt,
      record {
        loggers =
            open_all uvicorn_loggers (change [] (λ logger. record logger { level = level }) root);
        processors =
            shared_processors
            ++ positional_arguments_formatter ∷ stack_info_renderer ∷ format_exc_info
              ∷ wrap_for_formatter ∷ [];
      },
    )
    else (err (exception "ValueError"), record logs { loggers = root })
