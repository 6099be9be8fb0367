-- ===== src/Reqwest/Guard.antt =====
-- ProxyGuard of reqwest/client.go: one proxy at a time for a client, from a pool, from a fetcher or from
-- the configuration. Each method holds the guard's lock throughout.
pub mod Dial
pub mod Setup
pub mod Holding
pub mod Keeping
use openscraper_framework.Prelude.{
  ℕ, suc, Bool, true, false, not, ◌||◌, Option, none, some, if◌then◌else◌,
}
use openscraper_framework.Prelude.Int.{ℤ}
use openscraper_framework.Prelude.Text.{Text}
use openscraper_framework.Reqwest.Stats.{incr_release_proxies}
use openscraper_framework.Reqwest.World.{
  ProxyIp, World, count_in, drops_in, Got, Manager, Fetched, FetchByIpLocation,
}

-- What getDialer returns: a dial through PoolDial, through a proxy, or with none.
pub data DialFunc : Type 0 where
  pooled direct : DialFunc
  http_proxy socks_proxy : Text → DialFunc

-- The fields of Option that the guard reads stand in it; `closed` counts the calls of
-- closeIdleConnections.
pub record ProxyGuard (P F : Type 0) : Type 0 where
  pub proxy : Option ℕ
  pub proxy_pool : Option P
  pub proxy_fetcher : Option F
  pub proxy_dialer : Option DialFunc
  pub drop_in : ℤ
  pub fetch_by_city : Text
  pub fetch_by_ip_location : Text
  pub closed : ℕ

abbrev pub new_proxy_guard : {P F : Type 0} → ℤ → Text → Text → ProxyGuard P F
new_proxy_guard drop_in city location = record {
  proxy = none;
  proxy_pool = none;
  proxy_fetcher = none;
  proxy_dialer = none;
  drop_in = drop_in;
  fetch_by_city = city;
  fetch_by_ip_location = location;
  closed = 0;
}

-- Whether AcquireProxy wants another proxy.
unfoldable pub create : ℕ → ℤ → World → Option ℕ → Bool
create now drop_in w none = true
create now drop_in w (some ref) = (w.proxies ref).invalid || drops_in now drop_in (w.proxies ref)

module _ {P F Err : Type 0} (pool_acquire : Manager P Err) (fetch : FetchByIpLocation F) where
  from_pool : ProxyGuard P F → Got P Err → Got (ProxyGuard P F) Err
  from_pool g got = record {
    state = record g { proxy = got.proxy; proxy_pool = some got.state };
    world = got.world;
    proxy = got.proxy;
    err = got.err;
  }

  -- A fetcher that finds nothing leaves the proxy as it is.
  fetched : ProxyGuard P F → F → World → Option ℕ → Got (ProxyGuard P F) Err
  fetched g f w none = record {
    state = record g { proxy_fetcher = some f };
    world = w;
    proxy = g.proxy;
    err = none;
  }
  fetched g f w (some ref) = record {
    state = record g { proxy = some ref; proxy_fetcher = some f };
    world = w;
    proxy = some ref;
    err = none;
  }

  from_fetcher : ProxyGuard P F → Fetched F → Got (ProxyGuard P F) Err
  unfolding fetched
  from_fetcher g got = fetched g got.state got.world got.proxy

  renewed : ℕ → ProxyGuard P F → World → Option P → Option F → Got (ProxyGuard P F) Err
  unfolding from_pool from_fetcher
  renewed now g w (some p) fetcher = from_pool g (pool_acquire now p w)
  renewed now g w none (some f) = from_fetcher g (fetch g.fetch_by_city g.fetch_by_ip_location f w)
  renewed now g w none none = record { state = g; world = w; proxy = g.proxy; err = none }

  -- AcquireProxy, by which a guard is itself a ProxyPoolManager.
  unfoldable pub acquire_proxy : Manager (ProxyGuard P F) Err
  unfolding create renewed
  acquire_proxy now g w =
      if create now g.drop_in w g.proxy
      then renewed now g w g.proxy_pool g.proxy_fetcher
      else record { state = g; world = w; proxy = g.proxy; err = none }

module _ {P F : Type 0} where
  abbrev dropped : ProxyGuard P F → ProxyGuard P F
  dropped g = record g { proxy = none; closed = suc g.closed }

  released : ProxyGuard P F → World → Option P → ProxyGuard P F × World
  released g w none = (g, w)
  released g w (some p) = (dropped g, count_in incr_release_proxies w)

  unfoldable pub release_proxy : ProxyGuard P F → World → ProxyGuard P F × World
  unfolding released
  release_proxy g w = released g w g.proxy_pool

  -- IsZero(Expire) or not, and the time that is left.
  unless_zero : ℕ → ProxyGuard P F → World → ℕ → Option ℕ → ProxyGuard P F
  unless_zero now g w ref none = g
  unless_zero now g w ref (some expire) =
      if drops_in now g.drop_in (w.proxies ref) then dropped g else g

  checked : ℕ → ProxyGuard P F → World → Option P → Option ℕ → ProxyGuard P F
  unfolding unless_zero
  checked now g w none proxy = g
  checked now g w (some p) none = g
  checked now g w (some p) (some ref) = unless_zero now g w ref (w.proxies ref).expire

  unfoldable pub check_proxy_and_close_idle_conn : ℕ → ProxyGuard P F → World → ProxyGuard P F
  unfolding checked
  check_proxy_and_close_idle_conn now g w = checked now g w g.proxy_pool g.proxy
