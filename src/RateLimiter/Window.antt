-- ===== src/RateLimiter/Window.antt =====
-- While Redis answers, one window lets through exactly the first `max_requests` requests of an
-- identifier.
use smart_auth_with_kubernat.Prelude.{
  ℕ, zero, suc, ◌+◌, ◌-◌, ◌*◌, ◌≤◌, ◌<◌, String, ◌≡◌, Bool, true, false, none, some, arith, leb,
  ==_refl, string_eq, if◌then◌else◌,
}
use Prim.Native.Nat.{min}
use smart_auth_with_kubernat.Config.{Settings}
use smart_auth_with_kubernat.Exec.{Result, ok, err, redis_command, ◌>>=◌}
use smart_auth_with_kubernat.Platform.{Platform, IsDocumented, World}
use smart_auth_with_kubernat.Platform.Libraries.{reply}
use smart_auth_with_kubernat.Platform.Redis.{Entry, counter, micro, live}
use smart_auth_with_kubernat.RateLimiter.{Request, rate_limit, get_client_ip, limit_key}

abbrev pub is_ok : Result (Unit {0}) → Bool
is_ok (ok a) = true
is_ok (err e) = false

-- a counter that has a deadline
abbrev pub counting : ℕ → ℕ → Entry
counting c d = record { value = counter c; deadline = some d }

module _ {P : Platform} (settings : Settings) (scope : String) (max_requests window_seconds : ℕ)
    (request : Request) where
  -- one request
  abbrev pub limit : World P → Result (Unit {0}) × World P
  limit = rate_limit settings scope max_requests window_seconds request

  -- how many of `n` requests, one after the other, get through
  unfoldable pub passed : ℕ → World P → ℕ
  passed zero w = 0
  passed (suc n) w = let (r, w') = limit w in (if is_ok r then 1 else 0) + passed n w'

-- the key that a request is counted under
abbrev pub key_of : Platform → Settings → String → Request → String
key_of P settings scope request = limit_key scope (get_client_ip P settings request)

module _ {P : Platform} (L : IsDocumented P) (up : (i : ℕ) → P.answer i ≡ reply)
    (settings : Settings) (scope : String) (max_requests window_seconds : ℕ)
    (request : Request) where
  abbrev key : String
  key = key_of P settings scope request

  abbrev step : World P → Result (Unit {0}) × World P
  step = limit settings scope max_requests window_seconds request

  abbrev through : ℕ → World P → ℕ
  through = passed settings scope max_requests window_seconds request

  -- A request within the window is counted, and passes while the count is within the limit.
  pub limit_again :
      (w : World P) (c d : ℕ)
      → P.entries w.store key ≡ some (counting c d)
      → P.clock w.readings < d
      → 0 < c
      → let (r, w') = step w in
        (is_ok r ≡ leb (c + 1) max_requests)
        × (P.entries w'.store key ≡ some (counting (c + 1) d))
        × (w.readings ≤ w'.readings)
        × (w'.readings ≤ w.readings + 2)
  unfolding rate_limit redis_command ◌>>=◌
  limit_again w c d there early pos = ground (
    arith,
    up w.readings,
    up (w.readings + 1),
    there,
    ==_refl key,
    L.incr_value_lem (P.clock w.readings) key w.store,
    L.entries-incr (P.clock w.readings) key w.store key,
  )

  -- The first request of a window sets its deadline.
  pub limit_first :
      (w : World P)
      → live (P.clock w.readings) (P.entries w.store key) ≡ none
      → let (r, w') = step w in
        let d = P.clock (w.readings + 1) + window_seconds * micro in
        (is_ok r ≡ leb 1 max_requests)
        × (P.entries w'.store key ≡ some (counting 1 d))
        × (w.readings ≤ w'.readings)
        × (w'.readings ≤ w.readings + 3)
  unfolding rate_limit redis_command ◌>>=◌
  limit_first w gone =
      let r = w.readings in
      ground (
        arith,
        up r,
        up (r + 1),
        up (r + 1 + 1),
        gone,
        ==_refl key,
        L.incr_value_lem (P.clock r) key w.store,
        L.entries-incr (P.clock r) key w.store key,
        L.entries-expire (P.clock (r + 1)) key window_seconds (P.incr (P.clock r) key w.store) key,
      )

  passed_again :
      (n : ℕ) (w : World P) (c d : ℕ)
      → P.entries w.store key ≡ some (counting c d)
      → 0 < c
      → ((i : ℕ) → i < w.readings + 2 * n → P.clock i < d)
      → through n w ≡ min n (max_requests - c)
  unfolding passed
  passed_again zero w c d there pos early = omega arith
  passed_again (suc n) w c d there pos early =
      let (admitted, there', later, soon) =
        limit_again w c d there (early w.readings (omega arith)) pos in
      let rest =
        passed_again n (step w).1 (c + 1) d there' (omega arith) (λ i h. early i (omega arith)) in
      ground (arith, admitted, rest)

  -- While Redis answers, of `n` requests of a client that is not counted yet, all before the deadline
  -- that the first one sets, the first `max_requests` get through and no others.
  pub passed-eq-min :
      (n : ℕ) (w : World P)
      → live (P.clock w.readings) (P.entries w.store key) ≡ none
      → ((i : ℕ)
          → i < w.readings + 1 + 2 * n
          → P.clock i < P.clock (w.readings + 1) + window_seconds * micro)
      → through n w ≡ min n max_requests
  unfolding passed
  passed-eq-min zero w gone early = omega arith
  passed-eq-min (suc n) w gone early =
      let (admitted, there, later, soon) = limit_first w gone in
      let rest =
        passed_again n (step w).1 1 (P.clock (w.readings + 1) + window_seconds * micro) there
          (omega arith) (λ i h. early i (omega arith)) in
      ground (arith, admitted, rest)
