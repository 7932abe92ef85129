-- ===== src/RateLimiter/Failures.antt =====
-- What the limiter does when Redis does not answer.
use smart_auth_with_kubernat.Prelude.{
  ℕ, zero, suc, ◌+◌, ◌-◌, ◌<◌, String, ◌≡◌, ◌≢◌, none, some, arith, leb, ==_refl, string_eq,
  if◌then◌else◌,
}
use Prim.Native.Nat.{min}
use smart_auth_with_kubernat.Config.{Settings}
use smart_auth_with_kubernat.Exec.{ok, err, redis_command, ◌>>=◌}
use smart_auth_with_kubernat.Platform.{Platform, IsDocumented, World}
use smart_auth_with_kubernat.Platform.Libraries.{reply, refused}
use smart_auth_with_kubernat.Platform.Redis.{Entry, counter, live}
use smart_auth_with_kubernat.RateLimiter.{Request, rate_limit, unavailable}
use smart_auth_with_kubernat.RateLimiter.Window.{is_ok, key_of, limit, passed}

-- a counter with no deadline
abbrev pub endless : ℕ → Entry
endless c = record { value = counter c; deadline = none }

module _ {P : Platform} (settings : Settings) (scope : String) (max_requests window_seconds : ℕ)
    (request : Request) where
  -- Where the count itself has no answer, the request is refused with 503 or let through, as the
  -- setting says.
  pub limit_unanswered :
      (w : World P)
      → P.answer w.readings ≢ reply
      → (rate_limit settings scope max_requests window_seconds request w).0
        ≡ (if settings.rate_limit_fail_closed then err unavailable else ok tt)
  unfolding rate_limit redis_command ◌>>=◌
  limit_unanswered w down = ground arith

module _ {P : Platform} (L : IsDocumented P) (settings : Settings) (scope : String)
    (max_requests window_seconds : ℕ) (request : Request) where
  abbrev key : String
  key = key_of P settings scope request

  -- Where the first request of a window is counted and its EXPIRE is refused, a counter is left
  -- that has no deadline.
  pub expire_refused :
      (w : World P)
      → live (P.clock w.readings) (P.entries w.store key) ≡ none
      → P.answer w.readings ≡ reply
      → P.answer (w.readings + 1) ≡ refused
      → P.entries (rate_limit settings scope max_requests window_seconds request w).1.store key
        ≡ some (endless 1)
  unfolding rate_limit redis_command ◌>>=◌
  expire_refused w gone counted down =
      let r = w.readings in
      ground (
        arith,
        gone,
        ==_refl key,
        L.incr_value_lem (P.clock r) key w.store,
        L.entries-incr (P.clock r) key w.store key,
      )

  limit-endless :
      (up : (i : ℕ) → P.answer i ≡ reply) (w : World P) (c : ℕ)
      → P.entries w.store key ≡ some (endless c)
      → 0 < c
      → let (r, w') = limit settings scope max_requests window_seconds request w in
        (is_ok r ≡ leb (c + 1) max_requests) × (P.entries w'.store key ≡ some (endless (c + 1)))
  unfolding rate_limit redis_command ◌>>=◌
  limit-endless up w c there pos =
      let r = w.readings in
      ground (
        arith,
        up r,
        up (r + 1),
        there,
        ==_refl key,
        L.incr_value_lem (P.clock r) key w.store,
        L.entries-incr (P.clock r) key w.store key,
      )

  -- While Redis answers, a counter with no deadline is never reset: however long its client waits,
  -- only what was left of the limit gets through.
  pub locked_out :
      (up : (i : ℕ) → P.answer i ≡ reply) (n : ℕ) (w : World P) (c : ℕ)
      → P.entries w.store key ≡ some (endless c)
      → 0 < c
      → passed settings scope max_requests window_seconds request n w ≡ min n (max_requests - c)
  unfolding passed
  locked_out up zero w c there pos = omega arith
  locked_out up (suc n) w c there pos =
      let (admitted, there') = limit-endless up w c there pos in
      let rest =
        locked_out up n (limit settings scope max_requests window_seconds request w).1 (c + 1)
          there' (omega arith) in
      ground (arith, admitted, rest)
