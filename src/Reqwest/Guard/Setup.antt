-- ===== src/Reqwest/Guard/Setup.antt =====
-- getDialer and ProxyDialer: which of a pool, a fetcher or a fixed proxy a guard is given. Building a pool
-- or a fetcher is a parameter, and so is SocksDialer, of which only the error counts.
use openscraper_framework.Prelude.{
  ℕ, Bool, true, false, not, ◌||◌, Bool-cases, Option, none, some, [], ◌∷◌, if◌then◌else◌, ◌≡◌,
  refl, subst, arith, inl, inr, is_none,
}
use openscraper_framework.Prelude.Int.{ℤ}
use openscraper_framework.Prelude.Text.{Text}
use openscraper_framework.ProxyPool.Config.{
  Protocol, protocol_none, protocol_http, protocol_socks, ProxyConfig,
}
use openscraper_framework.Reqwest.World.{ProxyIp, World, new_proxy}
use openscraper_framework.Reqwest.Guard.{
  DialFunc, pooled, direct, http_proxy, socks_proxy, ProxyGuard, new_proxy_guard,
}

-- getDialer returns a dial, nil where there is no configuration, or panics.
pub data Dialer (P F : Type 0) : Type 0 where
  panics : Dialer P F
  dials_by : ProxyGuard P F → World → Option DialFunc → Dialer P F

abbrev pub is_empty : Text → Bool
is_empty [] = true
is_empty (c ∷ cs) = false

-- &proxz.ProxyIp{Protocol, Host}
abbrev fixed : Protocol → Text → ProxyIp
fixed protocol host = record {
  host = host;
  expire = none;
  protocol = protocol;
  invalid = false;
  auth_user = [];
  auth_pwd = [];
}

module _ {P F : Type 0} (create_pool : ProxyConfig → Option P)
    (create_fetcher : ProxyConfig → Option F) (socks_fails : Text → Bool) where
  with_fetcher : ProxyGuard P F → World → Option F → Dialer P F
  with_fetcher g w none = panics
  with_fetcher g w (some f) =
      dials_by (record g { proxy_fetcher = some f; proxy_dialer = some pooled }) w (some pooled)

  with_pool : ProxyGuard P F → World → Option P → Dialer P F
  with_pool g w none = panics
  with_pool g w (some p) =
      dials_by (record g { proxy_pool = some p; proxy_dialer = some pooled }) w (some pooled)

  with_fixed : ProxyGuard P F → World → Protocol → Text → DialFunc → Dialer P F
  with_fixed g w protocol host dial =
      dials_by (record g { proxy = some w.fresh; proxy_dialer = some dial })
        (new_proxy (fixed protocol host) w) (some dial)

  of_protocol : ProxyGuard P F → World → ProxyConfig → Protocol → Dialer P F
  unfolding with_fixed
  of_protocol g w c protocol_http =
      if is_empty c.proxy then panics else with_fixed g w protocol_http c.proxy (http_proxy c.proxy)
  of_protocol g w c protocol_socks =
      if is_empty c.proxy || socks_fails c.proxy
      then panics
      else with_fixed g w protocol_socks c.proxy (socks_proxy c.proxy)
  of_protocol g w c protocol_none =
      dials_by (record g { proxy_dialer = some direct }) w (some direct)

  unfoldable pub get_dialer : Option ProxyConfig → ProxyGuard P F → World → Dialer P F
  unfolding with_fetcher with_pool of_protocol
  get_dialer none g w = dials_by g w none
  get_dialer (some c) g w =
      if not (is_empty c.provider)
      then if not (is_empty g.fetch_by_ip_location) || not (is_empty g.fetch_by_city)
        then with_fetcher g w (create_fetcher c)
        else with_pool g w (create_pool c)
      else of_protocol g w c c.protocol

  -- The dialer that getDialer returned is kept once more.
  kept : Dialer P F → Dialer P F
  kept panics = panics
  kept (dials_by g w dial) = dials_by (record g { proxy_dialer = dial }) w dial

  dialer_or : Option ProxyConfig → ProxyGuard P F → World → Option DialFunc → Dialer P F
  unfolding get_dialer kept
  dialer_or c g w none = kept (get_dialer c g w)
  dialer_or c g w (some dial) = dials_by g w (some dial)

  unfoldable pub proxy_dialer : Option ProxyConfig → ProxyGuard P F → World → Dialer P F
  unfolding dialer_or
  proxy_dialer c g w = dialer_or c g w g.proxy_dialer

module _ {P F : Type 0} where
  abbrev Sourceless : ProxyGuard P F → Type 0
  Sourceless g = (g.proxy_pool ≡ none) × (g.proxy_fetcher ≡ none)

  abbrev HasProxy : ProxyGuard P F → World → Protocol → Text → Type 0
  HasProxy g w protocol host =
      (ref : ℕ) × (g.proxy ≡ some ref)
      × ((w.proxies ref).protocol ≡ protocol)
      × ((w.proxies ref).host ≡ host)

  -- What a guard has where it dials in a way.
  abbrev pub Sourced : ProxyGuard P F → World → Option DialFunc → Type 0
  Sourced g w none = Sourceless g × (g.proxy ≡ none)
  Sourced g w (some direct) = Sourceless g × (g.proxy ≡ none)
  Sourced g w (some pooled) =
      (is_none g.proxy_pool ≡ not (is_none g.proxy_fetcher)) × (g.proxy ≡ none)
  Sourced g w (some (http_proxy host)) = Sourceless g × HasProxy g w protocol_http host
  Sourced g w (some (socks_proxy host)) = Sourceless g × HasProxy g w protocol_socks host

  abbrev pub AllSourced : Dialer P F → Type 0
  AllSourced panics = Unit
  AllSourced (dials_by g w dial) = Sourced g w dial × (g.proxy_dialer ≡ dial)

module _ {P F : Type 0} (create_pool : ProxyConfig → Option P)
    (create_fetcher : ProxyConfig → Option F) (socks_fails : Text → Bool) (drop_in : ℤ)
    (city location : Text) (w : World) where
  abbrev start : ProxyGuard P F
  start = new_proxy_guard drop_in city location

  of_protocol-Sourced :
      (c : ProxyConfig) (p : Protocol)
      → AllSourced (of_protocol create_pool create_fetcher socks_fails start w c p)
  unfolding of_protocol with_fixed
  of_protocol-Sourced c protocol_none = (((refl, refl), refl), refl)
  of_protocol-Sourced c protocol_http = elim (Bool-cases (is_empty c.proxy)) [
    | inl t ↦ rw t tt
    | inr t ↦ rw t (((refl, refl), (w.fresh, refl, ground arith, ground arith)), refl)
  ]
  of_protocol-Sourced c protocol_socks =
      elim (Bool-cases (is_empty c.proxy || socks_fails c.proxy)) [
        | inl t ↦ rw t tt
        | inr t ↦ rw t (((refl, refl), (w.fresh, refl, ground arith, ground arith)), refl)
      ]

  get_dialer-Sourced :
      (c : Option ProxyConfig)
      → AllSourced (get_dialer create_pool create_fetcher socks_fails c start w)
  unfolding get_dialer with_pool with_fetcher
  get_dialer-Sourced none = (((refl, refl), refl), refl)
  get_dialer-Sourced (some c) = elim (Bool-cases (not (is_empty c.provider))) [
    | inl t ↦ elim (Bool-cases (not (is_empty location) || not (is_empty city))) [
      | inl u ↦ rw (t, u) (fetched (create_fetcher c))
      | inr u ↦ rw (t, u) (pooling (create_pool c))
    ]
    | inr t ↦ rw t (of_protocol-Sourced c c.protocol)
  ]
    where
      fetched :
          (o : Option F)
          → AllSourced (with_fetcher create_pool create_fetcher socks_fails start w o)
      fetched none = tt
      fetched (some f) = ((refl, refl), refl)

      pooling :
          (o : Option P) → AllSourced (with_pool create_pool create_fetcher socks_fails start w o)
      pooling none = tt
      pooling (some p) = ((refl, refl), refl)

  -- Where getDialer of a new guard does not panic, the guard has what its dial needs and no more: for a
  -- dial through PoolDial a pool or a fetcher, but not both, and no proxy yet; for a dial through a proxy
  -- of the configuration a new proxy of that host and protocol, and neither pool nor fetcher; for a
  -- direct dial, and with no configuration, none of these. The dial is kept in the guard.
  pub get_dialer_lem :
      (c : Option ProxyConfig) (g : ProxyGuard P F) (w' : World) (dial : Option DialFunc)
      → get_dialer create_pool create_fetcher socks_fails c
          (new_proxy_guard drop_in city location)
          w
        ≡ dials_by g w' dial
      → Sourced g w' dial × (g.proxy_dialer ≡ dial)
  get_dialer_lem c g w' dial h = subst AllSourced h (get_dialer-Sourced c)
