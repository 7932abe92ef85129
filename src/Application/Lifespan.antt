-- ===== src/Application/Lifespan.antt =====
-- app/main.py: the start and the stop of the process, with app/db/session.py's `close_engine`.
pub mod Closing
use smart_auth_with_kubernat.Prelude.{
  ℕ, ◌+◌, String, Bool, true, false, Option, none, some, List, [], ◌∷◌, ◌++◌, ◌≡◌,
}
use smart_auth_with_kubernat.Config.{Settings}
use smart_auth_with_kubernat.Exec.{Result, ok, err, Failure}
use smart_auth_with_kubernat.Platform.{Platform, World}
use smart_auth_with_kubernat.RateLimiter.{Request}
use smart_auth_with_kubernat.Routes.{Call, serve_all}

-- redis-py and SQLAlchemy's engine: whether a client is made for a URL, and what closing them raises
pub record Resources : Type 0 where
  pub from_url : String → Option Failure
  pub aclose : Option Failure
  pub dispose : Option Failure

pub data Message : Type 0 where
  application_starting : String → Message
  application_stopping : Message

pub data Client : Type 0 where
  missing opened closed : Client

-- `app.state.redis`, whether the engine's pool was disposed of, and the log
pub record Process : Type 0 where
  pub redis : Client
  pub engine_disposed : Bool
  pub log : List Message

abbrev pub fresh_process : Process
fresh_process = record { redis = missing; engine_disposed = false; log = [] }

module _ (O : Resources) where
  abbrev pub after_from_url : Option Failure → Process → Result {0} Unit × Process
  after_from_url (some e) p = (err e, p)
  after_from_url none p = (ok tt, record p { redis = opened })

  -- `lifespan`, up to its `yield`
  unfoldable pub startup : Settings → Process → Result {0} Unit × Process
  startup settings p =
      after_from_url (O.from_url settings.redis_url)
        (record p { log = p.log ++ application_starting settings.app_env ∷ [] })

  abbrev pub close_engine : Option Failure → Process → Result {0} Unit × Process
  close_engine (some e) p = (err e, p)
  close_engine none p = (ok tt, record p { engine_disposed = true })

  abbrev pub after_aclose : Option Failure → Process → Result {0} Unit × Process
  after_aclose (some e) p = (err e, p)
  after_aclose none p = close_engine O.dispose (record p { redis = closed })

  -- `lifespan`, after its `yield`
  unfoldable pub shutdown : Process → Result {0} Unit × Process
  shutdown p = after_aclose O.aclose (record p { log = p.log ++ application_stopping ∷ [] })

  module _ {P : Platform} where
    -- the application runs where the start has returned
    abbrev pub run_started :
        Settings
        → List (Request × Call)
        → Result {0} Unit × Process
        → World P
        → Result {0} Unit × (Process × World P)
    run_started settings calls (err e, p) w = (err e, (p, w))
    run_started settings calls (ok done, p) w =
        let (result, p') = shutdown p in (result, (p', serve_all settings calls w))

    -- a process from its start to its stop, which serves requests in between
    unfoldable pub run_process :
        Settings → List (Request × Call) → Process → World P → Result {0} Unit × (Process × World P)
    run_process settings calls p w = run_started settings calls (startup settings p) w
