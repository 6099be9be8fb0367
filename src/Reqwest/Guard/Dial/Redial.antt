-- ===== src/Reqwest/Guard/Dial/Redial.antt =====
-- A client's dial through its guard: the guard and PoolDial share the proxy, so that a failed dial shows
-- at the guard's next call.
use openscraper_framework.Prelude.{
  ℕ, true, Bool-cases, Option, none, some, ◌≡◌, refl, ap, ◌∙◌, arith, inl, inr, ◌⊎◌,
}
use openscraper_framework.Prelude.Text.{Text}
use openscraper_framework.ProxyPool.Config.{Protocol, protocol_none, protocol_http, protocol_socks}
use openscraper_framework.Reqwest.Stats.{incr_dial_proxies}
use openscraper_framework.Reqwest.World.{ProxyIp, World, count_in, Got, Manager, FetchByIpLocation}
use openscraper_framework.Reqwest.Guard.{
  ProxyGuard, create, acquire_proxy, renewed, from_pool, from_fetcher, fetched,
}
use openscraper_framework.Reqwest.Guard.Dial.{
  Dialers, Dialed, dialed, DialedBy, pool_dial, ended, through_socks, through, dial_got, host_of,
  auth_of,
}

module _ {P F Err : Type 0} (pool_acquire : Manager P Err) (fetch : FetchByIpLocation F) where
  fetched-holds :
      (g : ProxyGuard P F) (f : F) (w : World) (o : Option ℕ)
      → (fetched {Err = Err} pool_acquire fetch g f w o).state.proxy
        ≡ (fetched {Err = Err} pool_acquire fetch g f w o).proxy
  unfolding fetched
  fetched-holds g f w none = refl
  fetched-holds g f w (some ref) = refl

  renewed-holds :
      (now : ℕ) (g : ProxyGuard P F) (w : World) (p : Option P) (f : Option F)
      → (renewed pool_acquire fetch now g w p f).state.proxy
        ≡ (renewed pool_acquire fetch now g w p f).proxy
  unfolding renewed from_pool from_fetcher
  renewed-holds now g w (some p) f = refl
  renewed-holds now g w none (some f) =
      let got = fetch g.fetch_by_city g.fetch_by_ip_location f w in
      fetched-holds g got.state got.world got.proxy
  renewed-holds now g w none none = refl

  acquire_proxy-holds :
      (now : ℕ) (g : ProxyGuard P F) (w : World)
      → (acquire_proxy pool_acquire fetch now g w).state.proxy
        ≡ (acquire_proxy pool_acquire fetch now g w).proxy
  unfolding acquire_proxy
  acquire_proxy-holds now g w = elim (Bool-cases (create now g.drop_in w g.proxy)) [
    | inl t ↦ rw t (renewed-holds now g w g.proxy_pool g.proxy_fetcher)
    | inr t ↦ rw t
  ]

-- What is known where a dial itself failed: the proxy that was handed out is invalid.
record Failed {S Err Conn : Type 0} (got : Got S Err) (d : DialedBy S Conn Err) (ref : ℕ)
    : Type 0 where
  handed : got.proxy ≡ some ref
  state : d.state ≡ got.state
  marked : (d.world.proxies ref).invalid ≡ true

module _ {S Err Conn : Type 0} (dialers : Dialers Conn Err) (conn : Option Conn) (e : Err) where
  abbrev Fails : DialedBy S Conn Err → Type 0
  Fails d = d.result ≡ dialed conn (some e)

  ended-marked :
      (ref : ℕ) (s : S) (w : World) (o : Dialed Conn Err)
      → Fails (ended dialers ref s w o)
      → ((ended dialers ref s w o).state ≡ s)
        × (((ended dialers ref s w o).world.proxies ref).invalid ≡ true)
  unfolding ended
  ended-marked ref s w (c, none) h = cc
  ended-marked ref s w (c, some x) h = (refl, ground arith)

  through-marked :
      (addr : Text) (ref : ℕ) (s : S) (w : World) (p : ProxyIp) (protocol : Protocol)
      → Fails (through dialers addr ref s w p protocol)
      → ((through dialers addr ref s w p protocol).state ≡ s)
        × (((through dialers addr ref s w p protocol).world.proxies ref).invalid ≡ true)
  unfolding through through_socks
  through-marked addr ref s w p protocol_http h =
      ended-marked ref s w (dialers.http_dialer (host_of p) addr) h
  through-marked addr ref s w p protocol_socks h = by_socks (dialers.socks5 p.host (auth_of p)) h
    where
      by_socks :
          (o : Err ⊎ (Text → Dialed Conn Err))
          → Fails (through_socks dialers addr ref s w o)
          → ((through_socks dialers addr ref s w o).state ≡ s)
            × (((through_socks dialers addr ref s w o).world.proxies ref).invalid ≡ true)
      by_socks (inl x) k = cc
      by_socks (inr dial) k = ended-marked ref s w (dial addr) k
  through-marked addr ref s w p protocol_none h = cc

  dial_got-Failed :
      (addr : Text) (got : Got S Err) (proxy : Option ℕ) (err : Option Err)
      → got.proxy ≡ proxy
      → Fails (dial_got dialers addr got.state got.world proxy err)
      → (ref : ℕ) × Failed got (dial_got dialers addr got.state got.world proxy err) ref
  unfolding dial_got
  dial_got-Failed addr got proxy (some x) q h = cc
  dial_got-Failed addr got none none q h = cc
  dial_got-Failed addr got (some ref) none q h =
      let (a, b) =
        through-marked addr ref got.state (count_in incr_dial_proxies got.world)
          (got.world.proxies ref) (got.world.proxies ref).protocol h in
      (ref, record { handed = q; state = a; marked = b })

-- A proxy through which a dial failed is not used again: the dial marks it, the guard sees the mark, and
-- at its next call returns what its pool returns then, whatever its expiry, where the guard has a pool.
pub acquire_proxy-pool_dial :
    {P F Err Conn : Type 0} (pool_acquire : Manager P Err) (fetch : FetchByIpLocation F)
    (dialers : Dialers Conn Err) (addr : Text) (now later : ℕ) (g : ProxyGuard P F) (w : World)
    (conn : Option Conn) (e : Err) (p : P)
    → let d = pool_dial dialers (acquire_proxy pool_acquire fetch) now addr g w in
      d.result ≡ dialed conn (some e)
      → d.state.proxy_pool ≡ some p
      → let again = acquire_proxy pool_acquire fetch later d.state d.world in
        (again.proxy ≡ (pool_acquire later p d.world).proxy)
        × (again.err ≡ (pool_acquire later p d.world).err)
unfolding pool_dial
acquire_proxy-pool_dial pool_acquire fetch dialers addr now later g w conn e p h k =
    let got = acquire_proxy pool_acquire fetch now g w in
    let d = dial_got dialers addr got.state got.world got.proxy got.err in
    let (ref, f) = dial_got-Failed dialers conn e addr got got.proxy got.err refl h in
    let held : d.state.proxy ≡ some ref =
      ap (λ s. s.proxy) f.state ∙ acquire_proxy-holds pool_acquire fetch now g w ∙ f.handed in
    let c : create later d.state.drop_in d.world d.state.proxy ≡ true =
      unfold create in rw held (ground (arith, f.marked)) in
    unfold acquire_proxy renewed from_pool in (rw (c, k), rw (c, k))
