-- ===== src/RateLimiter/Addresses.antt =====
-- What a client can do to the address that it is counted under.
use smart_auth_with_kubernat.Prelude.{ℕ, String, ◌≡◌, false, arith}
use smart_auth_with_kubernat.Config.{Settings}
use smart_auth_with_kubernat.Platform.{Platform, World}
use smart_auth_with_kubernat.RateLimiter.{Request, is_trusted_proxy, get_client_ip, rate_limit}

module _ (P : Platform) (settings : Settings) where
  -- A trusted proxy is known by its own address, whatever it forwards.
  is_trusted_proxy-header :
      (r s : Request)
      → r.client_host ≡ s.client_host
      → is_trusted_proxy P settings r ≡ is_trusted_proxy P settings s
  unfolding is_trusted_proxy
  is_trusted_proxy-header r s same = rw same

  get_client_ip-untrusted :
      (r s : Request)
      → r.client_host ≡ s.client_host
      → is_trusted_proxy P settings r ≡ false
      → get_client_ip P settings r ≡ get_client_ip P settings s
  unfolding get_client_ip
  get_client_ip-untrusted r s same untrusted = ground (arith, is_trusted_proxy-header r s same)

module _ {P : Platform} (settings : Settings) where
  -- A client that does not come through a trusted proxy is limited alike whatever X-Forwarded-For it
  -- sends: the limiter gives the same answer and leaves the same counts.
  pub rate_limit-untrusted :
      (scope : String) (max_requests window_seconds : ℕ) (r s : Request) (w : World P)
      → r.client_host ≡ s.client_host
      → is_trusted_proxy P settings r ≡ false
      → rate_limit settings scope max_requests window_seconds r w
        ≡ rate_limit settings scope max_requests window_seconds s w
  unfolding rate_limit
  rate_limit-untrusted scope max_requests window_seconds r s w same untrusted =
      rw (get_client_ip-untrusted P settings r s same untrusted)
