-- ===== src/Application/Lifespan/Closing.antt =====
-- What a process leaves open.
use smart_auth_with_kubernat.Prelude.{
  true, none, some, List, [], ◌∷◌, ◌++◌, ◌≡◌, refl, ◌⊎◌, inl, inr, Option-cases,
}
use smart_auth_with_kubernat.Application.Lifespan.{
  Resources, Message, application_starting, application_stopping, opened, closed, Process, startup,
  shutdown, run_process,
}
use smart_auth_with_kubernat.Config.{Settings}
use smart_auth_with_kubernat.Exec.{Result, ok, err, Failure}
use smart_auth_with_kubernat.Platform.{Platform, World}
use smart_auth_with_kubernat.RateLimiter.{Request}
use smart_auth_with_kubernat.Routes.{Call, serve_all}

abbrev both_logged : Settings → Process → List Message
both_logged settings p =
    (p.log ++ application_starting settings.app_env ∷ []) ++ application_stopping ∷ []

module _ {P : Platform} (O : Resources) (settings : Settings) (calls : List (Request × Call)) where
  -- Redis is closed, the engine is disposed of, and both messages are logged.
  abbrev pub Closed : Process → World P → Result {0} Unit × (Process × World P) → Type 0
  Closed p w (result, (p', w')) =
      (result ≡ ok tt)
      × (w' ≡ serve_all settings calls w)
      × (p'.log ≡ both_logged settings p)
      × (p'.redis ≡ closed)
      × (p'.engine_disposed ≡ true)

  -- No client was made, and no request served.
  abbrev pub Unstarted : Process → World P → Result {0} Unit × (Process × World P) → Type 0
  Unstarted p w (result, (p', w')) =
      (e : Failure) × (O.from_url settings.redis_url ≡ some e)
      × (result ≡ err e)
      × (w' ≡ w)
      × (p'.redis ≡ p.redis)
      × (p'.engine_disposed ≡ p.engine_disposed)

  -- A failure of closing Redis leaves the engine, one of the engine comes after Redis is closed.
  abbrev pub Unclosed : Process → World P → Result {0} Unit × (Process × World P) → Type 0
  Unclosed p w (result, (p', w')) =
      (e : Failure) × (result ≡ err e)
      × (w' ≡ serve_all settings calls w)
      × (p'.log ≡ both_logged settings p)
      × (p'.engine_disposed ≡ p.engine_disposed)
      × (((O.aclose ≡ some e) × (p'.redis ≡ opened))
          ⊎ ((O.aclose ≡ none) × (O.dispose ≡ some e) × (p'.redis ≡ closed)))

  -- A process returns with its requests served, its start and its stop logged, Redis closed and the
  -- engine disposed of, or ends with a failure: that of making the client of Redis, with nothing
  -- served; that of closing Redis, with the engine left as it was; or that of the engine, with Redis
  -- closed.
  pub run_process_lem :
      (p : Process) (w : World P)
      → let ended = run_process O settings calls p w in
        Closed p w ended ⊎ (Unstarted p w ended ⊎ Unclosed p w ended)
  unfolding run_process startup shutdown
  run_process_lem p w = elim (Option-cases (O.from_url settings.redis_url)) [
    | inr (e, failed) ↦ rw failed (inr (inl (e, refl, refl, refl, refl, refl)))
    | inl made ↦ elim (Option-cases O.aclose) [
      | inr (e, failed) ↦
          rw (made, failed) (inr (inr (e, refl, refl, refl, refl, inl (refl, refl))))
      | inl shut ↦ elim (Option-cases O.dispose) [
        | inr (e, failed) ↦
            rw (made, shut, failed) (inr (inr (e, refl, refl, refl, refl, inr (refl, refl, refl))))
        | inl disposed ↦ rw (made, shut, disposed) (inl (refl, refl, refl, refl, refl))
      ]
    ]
  ]
