-- ===== src/RateLimiter/Reopening.antt =====
-- When its window is over, a client gets through again, however often it was refused.
use smart_auth_with_kubernat.Prelude.{
  ℕ, zero, suc, ◌+◌, ◌*◌, ◌≤◌, ◌<◌, String, ◌≡◌, true, none, some, arith,
}
use smart_auth_with_kubernat.Config.{Settings}
use smart_auth_with_kubernat.Platform.{Platform, IsDocumented, World}
use smart_auth_with_kubernat.Platform.Libraries.{reply}
use smart_auth_with_kubernat.Platform.Redis.{micro, live}
use smart_auth_with_kubernat.RateLimiter.{Request}
use smart_auth_with_kubernat.RateLimiter.Window.{
  is_ok, counting, limit, key_of, limit_again, limit_first,
}

module _ {P : Platform} (settings : Settings) (scope : String) (max_requests window_seconds : ℕ)
    (request : Request) where
  -- the world after `n` requests
  unfoldable pub after : ℕ → World P → World P
  after zero w = w
  after (suc n) w = after n (limit settings scope max_requests window_seconds request w).1

module _ {P : Platform} (L : IsDocumented P) (up : (i : ℕ) → P.answer i ≡ reply)
    (settings : Settings) (scope : String) (max_requests window_seconds : ℕ)
    (request : Request) where
  abbrev key : String
  key = key_of P settings scope request

  abbrev later : ℕ → World P → World P
  later = after settings scope max_requests window_seconds request

  abbrev next_world : World P → World P
  next_world w = (limit settings scope max_requests window_seconds request w).1

  -- The requests of a window leave its deadline as it is.
  counting-after :
      (n : ℕ) (w : World P) (c d : ℕ)
      → P.entries w.store key ≡ some (counting c d)
      → 0 < c
      → ((i : ℕ) → i < w.readings + 2 * n → P.clock i < d)
      → (c' : ℕ) × (P.entries (later n w).store key ≡ some (counting c' d))
  unfolding after
  counting-after zero w c d there pos early = (c, there)
  counting-after (suc n) w c d there pos early =
      let (_, there', _, soon) =
        limit_again L up settings scope max_requests window_seconds request w c d there
          (early w.readings (omega arith)) pos in
      counting-after n (next_world w) (c + 1) d there' (omega arith) (λ i h. early i (omega arith))

  -- While Redis answers, and one request is allowed at least: however many requests a client has sent
  -- in a window, a request after the window's deadline gets through.
  pub reopens :
      (n : ℕ) (w v : World P)
      → live (P.clock w.readings) (P.entries w.store key) ≡ none
      → ((i : ℕ)
          → i < w.readings + 3 + 2 * n
          → P.clock i < P.clock (w.readings + 1) + window_seconds * micro)
      → 0 < max_requests
      → P.entries v.store key ≡ P.entries (later (suc n) w).store key
      → P.clock (w.readings + 1) + window_seconds * micro ≤ P.clock v.readings
      → is_ok (limit settings scope max_requests window_seconds request v).0 ≡ true
  unfolding after
  reopens n w v gone early some_allowed same over =
      let d = P.clock (w.readings + 1) + window_seconds * micro in
      let (_, there, _, soon) =
        limit_first L up settings scope max_requests window_seconds request w gone in
      let (c, counted) =
        counting-after n (next_world w) 1 d there (omega arith) (λ i h. early i (omega arith)) in
      let (admitted, _, _, _) =
        limit_first L up settings scope max_requests window_seconds request v
          (ground (arith, same, counted)) in
      ground (arith, admitted)
