-- ===== src/RateLimiter/Retrying.antt =====
-- How long a refused client is told to wait.
use smart_auth_with_kubernat.Prelude.{
  ℕ, ◌+◌, ◌-◌, ◌*◌, ◌/◌, ◌≤◌, ◌<◌, String, ◌≡◌, some, arith, ==_refl, string_eq,
}
use smart_auth_with_kubernat.Config.{Settings}
use smart_auth_with_kubernat.Exec.{err, redis_command, ◌>>=◌}
use smart_auth_with_kubernat.Platform.{Platform, IsDocumented, World}
use smart_auth_with_kubernat.Platform.Libraries.{reply}
use smart_auth_with_kubernat.Platform.Redis.{micro}
use smart_auth_with_kubernat.RateLimiter.{Request, rate_limit, too_many}
use smart_auth_with_kubernat.RateLimiter.Window.{counting, limit, key_of}

module _ {P : Platform} (L : IsDocumented P) (up : (i : ℕ) → P.answer i ≡ reply)
    (settings : Settings) (scope : String) (max_requests window_seconds : ℕ)
    (request : Request) where
  abbrev key : String
  key = key_of P settings scope request

  -- the seconds that are left when the limiter asks for them
  abbrev seconds_to : ℕ → World P → ℕ
  seconds_to d w = (d / 1000 - P.clock (w.readings + 1) / 1000 + 500) / 1000

  limit_full :
      (w : World P) (c d : ℕ)
      → P.entries w.store key ≡ some (counting c d)
      → P.clock w.readings < d
      → P.clock (w.readings + 1) < d
      → 0 < c
      → max_requests ≤ c
      → (limit settings scope max_requests window_seconds request w).0
        ≡ err (too_many (seconds_to d w))
  unfolding rate_limit redis_command ◌>>=◌
  limit_full w c d there early still pos full = ground (
    arith,
    up w.readings,
    up (w.readings + 1),
    there,
    ==_refl key,
    L.incr_value_lem (P.clock w.readings) key w.store,
    L.entries-incr (P.clock w.readings) key w.store key,
    L.ttl_lem (P.clock (w.readings + 1)) key (P.incr (P.clock w.readings) key w.store),
  )

  -- While Redis answers, a client that has used up its limit, within the window and not at its very
  -- end, is refused with 429 and told a number of seconds to wait, which is less than 501
  -- milliseconds off what is left of the window, either way.
  pub retry_after_bounds :
      (w : World P) (c d : ℕ)
      → P.entries w.store key ≡ some (counting c d)
      → P.clock w.readings < d
      → P.clock (w.readings + 1) < d
      → 0 < c
      → max_requests ≤ c
      → (n : ℕ) × ((limit settings scope max_requests window_seconds request w).0
          ≡ err (too_many n))
        × (P.clock (w.readings + 1) + n * micro < d + 501_000)
        × (d < P.clock (w.readings + 1) + n * micro + 501_000)
  retry_after_bounds w c d there early still pos full =
      (seconds_to d w, limit_full w c d there early still pos full, omega arith, omega arith)
