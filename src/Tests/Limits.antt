-- ===== src/Tests/Limits.antt =====
-- The limiter on the platform in memory.
use smart_auth_with_kubernat.Prelude.{
  ℕ, ◌+◌, ◌*◌, ◌<◌, ◌≡◌, refl, true, none, some, ◌==◌, nat_eq, string_eq, if◌then◌else◌, arith,
}
use smart_auth_with_kubernat.Exec.{err}
use smart_auth_with_kubernat.Platform.{World}
use smart_auth_with_kubernat.RateLimiter.{
  Request, too_many, is_trusted_proxy, rate_limit, get_client_ip,
}
use smart_auth_with_kubernat.RateLimiter.Addresses.{rate_limit-untrusted}
use smart_auth_with_kubernat.RateLimiter.Reopening.{after, reopens}
use smart_auth_with_kubernat.RateLimiter.Failures.{endless, locked_out}
use smart_auth_with_kubernat.Platform.Redis.{micro}
use smart_auth_with_kubernat.RateLimiter.Retrying.{retry_after_bounds}
use smart_auth_with_kubernat.RateLimiter.Window.{
  counting, is_ok, limit, passed, passed-eq-min, key_of,
}
use smart_auth_with_kubernat.Tests.Memory.{memory, memory-IsDocumented, sample_settings, start}

abbrev visitor : Request
visitor = record { client_host = some "203.0.113.7"; forwarded_for = none }

passed-eq-min_example : passed {P = memory} sample_settings "auth" 5 60 visitor 7 start ≡ 5
passed-eq-min_example =
    passed-eq-min memory-IsDocumented (λ i. refl) sample_settings "auth" 5 60 visitor 7 start refl
      (λ i h. omega arith)

-- a counter at 4 that was left with no deadline
abbrev stuck : World memory
stuck = record start {
  store = λ k. if k == key_of memory sample_settings "auth" visitor then some (endless 4) else none;
}

locked_out_example : passed {P = memory} sample_settings "auth" 5 60 visitor 1000 stuck ≡ 1
unfolding get_client_ip
locked_out_example =
    locked_out memory-IsDocumented sample_settings "auth" 5 60 visitor (λ i. refl) 1000 stuck 4 refl
      (omega arith)

-- the world after seven requests, and a minute later
abbrev refused_twice : World memory
refused_twice = after {P = memory} sample_settings "auth" 5 60 visitor 7 start

reopens_example :
    is_ok
      (limit {P = memory} sample_settings "auth" 5 60 visitor
        (record refused_twice { readings = 61 })).0
    ≡ true
reopens_example =
    reopens memory-IsDocumented (λ i. refl) sample_settings "auth" 5 60 visitor 6 start
      (record refused_twice { readings = 61 }) refl (λ i h. omega arith) (omega arith) refl
      (omega arith)

-- five requests were counted, and the window ends after a minute
abbrev full : World memory
full = record start {
  store = λ k.
      if k == key_of memory sample_settings "auth" visitor
      then some (counting 5 (60 * micro))
      else none;
  readings = 10;
}

retry_after_bounds_example :
    (n : ℕ) × ((limit {P = memory} sample_settings "auth" 5 60 visitor full).0 ≡ err (too_many n))
    × (11 * micro + n * micro < 60 * micro + 501_000)
    × (60 * micro < 11 * micro + n * micro + 501_000)
unfolding get_client_ip
retry_after_bounds_example =
    retry_after_bounds memory-IsDocumented (λ i. refl) sample_settings "auth" 5 60 visitor full 5
      (60 * micro) refl (omega arith) (omega arith) (omega arith) (omega arith)

abbrev spoofer : Request
spoofer = record visitor { forwarded_for = some "198.51.100.1" }

rate_limit-untrusted_example :
    rate_limit {P = memory} sample_settings "auth" 5 60 visitor start
    ≡ rate_limit {P = memory} sample_settings "auth" 5 60 spoofer start
unfolding is_trusted_proxy
rate_limit-untrusted_example =
    rate_limit-untrusted sample_settings "auth" 5 60 visitor spoofer start refl refl
