-- ===== src/Tests/Starting.antt =====
-- The loggers as uvicorn leaves them, and the configuration on them.
use smart_auth_with_kubernat.Prelude.{
  ◌≡◌, refl, inl, true, false, none, [], ◌∷◌, string_eq, if◌then◌else◌,
}
use smart_auth_with_kubernat.Prelude.Texts.{upper}
use smart_auth_with_kubernat.Exec.{ok, err, exception}
use smart_auth_with_kubernat.Logging.{
  Handler, Logger, Name, Logs, same_name, uvicorn_loggers, stdout_handler, configure_logging,
}
use smart_auth_with_kubernat.Logging.Handlers.{handled_by, is_one_of, configured-handles}

abbrev stderr_handler : Handler
stderr_handler = record { stream = "stderr"; formatter = none }

-- "uvicorn" and "uvicorn.access" have handlers and do not propagate.
abbrev uvicorn_started : Name → Logger
uvicorn_started name =
    if same_name name ("uvicorn" ∷ [])
    then record { handlers = stderr_handler ∷ []; propagate = false; level = "INFO" }
    else if same_name name ("access" ∷ "uvicorn" ∷ [])
    then record { handlers = stderr_handler ∷ []; propagate = false; level = "INFO" }
    else record { handlers = []; propagate = true; level = "NOTSET" }

abbrev logs : Logs
logs = record { loggers = uvicorn_started; processors = [] }

configured-handles_example :
    let (result, configured) = configure_logging "info" logs in
    (result ≡ ok tt)
    × (handled_by configured.loggers ("access" ∷ "uvicorn" ∷ []) ≡ stdout_handler ∷ [])
    × ((configured.loggers []).level ≡ "INFO")
    × ((other : Name)
        → is_one_of uvicorn_loggers other ≡ false
        → same_name other [] ≡ false
        → configured.loggers other ≡ uvicorn_started other)
unfolding upper configure_logging handled_by
configured-handles_example =
    configured-handles "info" logs ("access" ∷ "uvicorn" ∷ []) refl (inl refl, (inl refl, tt))

-- before it, the handler of uvicorn gets the record
started_test : handled_by uvicorn_started ("access" ∷ "uvicorn" ∷ []) ≡ stderr_handler ∷ []
unfolding handled_by
started_test = refl

-- A level that `logging` does not know stops the start.
unknown_level : (configure_logging "verbose" logs).0 ≡ err (exception "ValueError")
unfolding configure_logging upper
unknown_level = refl
