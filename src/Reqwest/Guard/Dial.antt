-- ===== src/Reqwest/Guard/Dial.antt =====
-- PoolDial of reqwest/proxz/pool.go, and what it means for the guard that the client dials through. The
-- dialers of the third-party packages are parameters.
pub mod Redial
use openscraper_framework.Prelude.{
  ℕ, ◌<◌, zero, suc, ◌+◌, ◌%◌, Bool, true, false, Bool-cases, Option, none, some, List, [], ◌∷◌,
  ◌++◌, if◌then◌else◌, ◌≡◌, ◌≢◌, refl, ap, ◌∙◌, arith, inl, inr, ◌⊎◌,
}
use openscraper_framework.Prelude.Text.{Text, bytes}
use openscraper_framework.ProxyPool.Config.{Protocol, protocol_none, protocol_http, protocol_socks}
use openscraper_framework.Reqwest.Stats.{
  Stats, add_uint32, incr_dial_proxies, incr_dial_failed_proxies,
}
use openscraper_framework.Reqwest.World.{
  ProxyIp, World, put_proxy, invalidate, count_in, Got, Manager, FetchByIpLocation,
}
use openscraper_framework.Reqwest.Guard.{ProxyGuard, create, acquire_proxy, renewed}

-- A connection and an error, either of which may be nil.
abbrev pub Dialed : Type 0 → Type 0 → Type 0
Dialed Conn Err = Option Conn × Option Err

-- FasthttpHTTPDialerTimeout and goproxy.SOCKS5, at a host, with the timeout in them, and their dials at
-- an address.
pub record Dialers (Conn Err : Type 0) : Type 0 where
  pub http_dialer : Text → Text → Dialed Conn Err
  pub socks5 : Text → Option (Text × Text) → Err ⊎ (Text → Dialed Conn Err)

-- PoolDial returns ErrNoProxy, the error of SOCKS5, or what the dial returned; Fatalf ends the process.
pub data PoolDialed (Conn Err : Type 0) : Type 0 where
  no_proxy fatal : PoolDialed Conn Err
  no_dialer : Err → PoolDialed Conn Err
  dialed : Option Conn → Option Err → PoolDialed Conn Err

pub record DialedBy (S Conn Err : Type 0) : Type 0 where
  pub state : S
  pub world : World
  pub result : PoolDialed Conn Err

abbrev is_empty : Text → Bool
is_empty [] = true
is_empty (c ∷ cs) = false

-- user:pwd@host
abbrev host_of : ProxyIp → Text
host_of p =
    if is_empty p.auth_user
    then p.host
    else p.auth_user ++ (bytes ":" ++ (p.auth_pwd ++ (bytes "@" ++ p.host)))

abbrev auth_of : ProxyIp → Option (Text × Text)
auth_of p = if is_empty p.auth_user then none else some (p.auth_user, p.auth_pwd)

module _ {S Conn Err : Type 0} (dialers : Dialers Conn Err) where
  -- The error is looked at behind the switch.
  ended : ℕ → S → World → Dialed Conn Err → DialedBy S Conn Err
  ended ref s w (conn, none) = record { state = s; world = w; result = dialed conn none }
  ended ref s w (conn, some e) = record {
    state = s;
    world = count_in incr_dial_failed_proxies (invalidate ref w);
    result = dialed conn (some e);
  }

  through_socks : Text → ℕ → S → World → Err ⊎ (Text → Dialed Conn Err) → DialedBy S Conn Err
  unfolding ended
  through_socks addr ref s w (inl e) = record {
    state = s;
    world = count_in incr_dial_failed_proxies w;
    result = no_dialer e;
  }
  through_socks addr ref s w (inr dial) = ended ref s w (dial addr)

  through : Text → ℕ → S → World → ProxyIp → Protocol → DialedBy S Conn Err
  unfolding ended through_socks
  through addr ref s w p protocol_http = ended ref s w (dialers.http_dialer (host_of p) addr)
  through addr ref s w p protocol_socks =
      through_socks addr ref s w (dialers.socks5 p.host (auth_of p))
  through addr ref s w p protocol_none = record { state = s; world = w; result = fatal }

  dial_got : Text → S → World → Option ℕ → Option Err → DialedBy S Conn Err
  unfolding through
  dial_got addr s w proxy (some e) = record { state = s; world = w; result = no_proxy }
  dial_got addr s w none none = record { state = s; world = w; result = no_proxy }
  dial_got addr s w (some ref) none =
      through addr ref s (count_in incr_dial_proxies w) (w.proxies ref) (w.proxies ref).protocol

  unfoldable pub pool_dial : Manager S Err → ℕ → Text → S → World → DialedBy S Conn Err
  unfolding dial_got
  pool_dial acquire now addr s w =
      let got = acquire now s w in dial_got addr got.state got.world got.proxy got.err

-- How often a result was counted as a dial, and as a failed one.
abbrev pub dials : {Conn Err : Type 0} → PoolDialed Conn Err → ℕ × ℕ
dials no_proxy = (0, 0)
dials fatal = (1, 0)
dials (no_dialer e) = (1, 1)
dials (dialed conn none) = (1, 0)
dials (dialed conn (some e)) = (1, 1)

module _ {S Conn Err : Type 0} (dialers : Dialers Conn Err) where
  abbrev pub Counted : World → DialedBy S Conn Err → Type 0
  Counted w d =
      (d.world.stats.dial_proxies ≡ add_uint32 w.stats.dial_proxies (dials d.result).0)
      × (d.world.stats.dial_failed_proxies
          ≡ add_uint32 w.stats.dial_failed_proxies (dials d.result).1)

  module _ (s : S) (w : World) (h : w.stats.dial_failed_proxies < 4294967296) where
    ended-Counted :
        (ref : ℕ) (o : Dialed Conn Err)
        → Counted w (ended dialers ref s (count_in incr_dial_proxies w) o)
    unfolding ended
    ended-Counted ref (conn, none) = ground (arith, h)
    ended-Counted ref (conn, some e) = (refl, refl)

    through_socks-Counted :
        (addr : Text) (ref : ℕ) (o : Err ⊎ (Text → Dialed Conn Err))
        → Counted w (through_socks dialers addr ref s (count_in incr_dial_proxies w) o)
    unfolding through_socks
    through_socks-Counted addr ref (inl e) = (refl, refl)
    through_socks-Counted addr ref (inr dial) = ended-Counted ref (dial addr)

    through-Counted :
        (addr : Text) (ref : ℕ) (p : ProxyIp) (protocol : Protocol)
        → Counted w (through dialers addr ref s (count_in incr_dial_proxies w) p protocol)
    unfolding through
    through-Counted addr ref p protocol_http =
        ended-Counted ref (dialers.http_dialer (host_of p) addr)
    through-Counted addr ref p protocol_socks =
        through_socks-Counted addr ref (dialers.socks5 p.host (auth_of p))
    through-Counted addr ref p protocol_none = ground (arith, h)

    dial_got-Counted :
        (addr : Text) (proxy : Option ℕ) (err : Option Err)
        → w.stats.dial_proxies < 4294967296
        → Counted w (dial_got dialers addr s w proxy err)
    unfolding dial_got
    dial_got-Counted addr proxy (some e) k = ground (arith, h)
    dial_got-Counted addr none none k = ground (arith, h)
    dial_got-Counted addr (some ref) none k =
        through-Counted addr ref (w.proxies ref) (w.proxies ref).protocol

  -- From the counters behind its AcquireProxy, PoolDial adds one dial unless it returns ErrNoProxy, and
  -- one failed dial exactly if it returns an error of a dialer, for every manager, proxy and dialer,
  -- where the counters hold 32 bits.
  pub pool_dial_lem :
      (acquire : Manager S Err) (now : ℕ) (addr : Text) (s : S) (w : World)
      → (acquire now s w).world.stats.dial_proxies < 4294967296
      → (acquire now s w).world.stats.dial_failed_proxies < 4294967296
      → Counted (acquire now s w).world (pool_dial dialers acquire now addr s w)
  unfolding pool_dial
  pool_dial_lem acquire now addr s w k h =
      let got = acquire now s w in dial_got-Counted got.state got.world h addr got.proxy got.err k
