-- ===== src/Tests/Lifetime.antt =====
-- A process from its start to its stop, on the platform in memory.
use smart_auth_with_kubernat.Prelude.{◌≡◌, refl, ◌⊎◌, some, none, List, [], ◌∷◌}
use smart_auth_with_kubernat.Application.Lifespan.{
  Resources, fresh_process, run_process, startup, shutdown,
}
use smart_auth_with_kubernat.Application.Lifespan.Closing.{
  Closed, Unstarted, Unclosed, run_process_lem,
}
use smart_auth_with_kubernat.Exec.{exception}
use smart_auth_with_kubernat.RateLimiter.{Request}
use smart_auth_with_kubernat.Routes.{Call, get_me}
use smart_auth_with_kubernat.Tests.Auth.{with_ann}
use smart_auth_with_kubernat.Tests.Memory.{memory, sample_settings}

abbrev closable : Resources
closable = record { from_url = λ url. none; aclose = none; dispose = none }

abbrev anonymous : List (Request × Call)
anonymous = (record { client_host = none; forwarded_for = none }, get_me none) ∷ []

run_process_lem_example :
    let ended =
      run_process closable {P = memory} sample_settings anonymous fresh_process with_ann in
    Closed {P = memory} closable sample_settings anonymous fresh_process with_ann ended
    ⊎ (Unstarted {P = memory} closable sample_settings anonymous fresh_process with_ann ended
        ⊎ Unclosed {P = memory} closable sample_settings anonymous fresh_process with_ann ended)
run_process_lem_example =
    run_process_lem {P = memory} closable sample_settings anonymous fresh_process with_ann

-- Where Redis cannot be closed, the engine is left.
left_open :
    (run_process
      (record closable { aclose = some (exception "ConnectionError") })
      {P = memory}
      sample_settings
      []
      fresh_process
      with_ann).1.0.engine_disposed
    ≡ fresh_process.engine_disposed
unfolding run_process startup shutdown
left_open = refl
