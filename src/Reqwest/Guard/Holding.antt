-- ===== src/Reqwest/Guard/Holding.antt =====
-- How long a guard holds on to its proxy.
use openscraper_framework.Prelude.{
  ℕ, suc, false, none, some, List, [], ◌∷◌, ◌≡◌, refl, ap, ◌∙◌, arith,
}
use openscraper_framework.Prelude.Int.{ℤ}
use openscraper_framework.Reqwest.World.{World, drops_in, Manager, FetchByIpLocation}
use openscraper_framework.Reqwest.Guard.{
  ProxyGuard, create, acquire_proxy, release_proxy, check_proxy_and_close_idle_conn, renewed,
  from_pool, released, checked,
}

-- A proxy that is valid and does not run out within the time `drop_in`.
abbrev pub IsUsable : ℕ → ℤ → World → ℕ → Type 0
IsUsable now drop_in w ref =
    ((w.proxies ref).invalid ≡ false) × (drops_in now drop_in (w.proxies ref) ≡ false)

module _ {P F Err : Type 0} (pool_acquire : Manager P Err) (fetch : FetchByIpLocation F) where
  -- A proxy that the client released is not used again: with a pool, the next proxy and error are what
  -- the pool returns then, whatever was held, and the idle connections were closed once more.
  pub acquire_proxy-release_proxy :
      (now : ℕ) (g : ProxyGuard P F) (w : World) (p : P)
      → g.proxy_pool ≡ some p
      → let (g', w') = release_proxy g w in
        let got = acquire_proxy pool_acquire fetch now g' w' in
        (got.proxy ≡ (pool_acquire now p w').proxy)
        × (got.err ≡ (pool_acquire now p w').err)
        × (g'.closed ≡ suc g.closed)
  unfolding acquire_proxy release_proxy released create renewed from_pool
  acquire_proxy-release_proxy now g w p e = (rw e, rw e, rw e)

  -- Without a pool, a proxy of a fetcher included, a release changes nothing: the proxy that was released
  -- is returned again as long as it is usable, and no idle connection is closed.
  pub release_proxy-kept :
      (now : ℕ) (g : ProxyGuard P F) (w : World) (ref : ℕ)
      → g.proxy_pool ≡ none
      → g.proxy ≡ some ref
      → IsUsable now g.drop_in w ref
      → let (g', w') = release_proxy g w in
        ((acquire_proxy pool_acquire fetch now g' w').proxy ≡ some ref) × (g'.closed ≡ g.closed)
  unfolding acquire_proxy release_proxy released create
  release_proxy-kept now g w ref e a u =
      let c : create now g.drop_in w g.proxy ≡ false = rw a (ground (arith, u)) in
      let r : release_proxy g w ≡ (g, w) = rw e in
      (
        ap (λ t. (acquire_proxy pool_acquire fetch now t.0 t.1).proxy) r ∙ rw c a,
        ap (λ t. t.0.closed) r,
      )

-- The calls on a guard of a client, with the time, and the objects that other holders write to.
pub data Call (P F : Type 0) : Type 0 where
  acquire : ℕ → Call P F
  release : Call P F
  check : ℕ → Call P F
  others : (World → World) → Call P F

module _ {P F Err : Type 0} (pool_acquire : Manager P Err) (fetch : FetchByIpLocation F) where
  unfoldable pub call : Call P F → ProxyGuard P F → World → ProxyGuard P F × World
  call (acquire now) g w =
      let got = acquire_proxy pool_acquire fetch now g w in (got.state, got.world)
  call release g w = release_proxy g w
  call (check now) g w = (check_proxy_and_close_idle_conn now g w, w)
  call (others f) g w = (g, f w)

  unfoldable pub call_all : List (Call P F) → ProxyGuard P F → World → ProxyGuard P F × World
  unfolding call
  call_all [] g w = (g, w)
  call_all (c ∷ cs) g w = let (g', w') = call c g w in call_all cs g' w'

  call-fixed :
      (c : Call P F) (g : ProxyGuard P F) (w : World)
      → g.proxy_pool ≡ none
      → g.proxy_fetcher ≡ none
      → (call c g w).0 ≡ g
  unfolding call acquire_proxy create renewed release_proxy released check_proxy_and_close_idle_conn
      checked
  call-fixed (acquire now) g w e k = ground (arith, e, k)
  call-fixed release g w e k = ground (arith, e)
  call-fixed (check now) g w e k = ground (arith, e)
  call-fixed (others f) g w e k = refl

  -- A guard with neither a pool nor a fetcher, such as one with a proxy of the configuration, never
  -- changes, whatever is called on it and whatever others write to the proxies in between.
  pub call_all-fixed :
      (cs : List (Call P F)) (g : ProxyGuard P F) (w : World)
      → g.proxy_pool ≡ none
      → g.proxy_fetcher ≡ none
      → (call_all cs g w).0 ≡ g
  unfolding call_all
  call_all-fixed [] g w e k = refl
  call_all-fixed (c ∷ cs) g w e k =
      let same = call-fixed c g w e k in
      let later = call_all-fixed cs (call c g w).0 (call c g w).1 (rw same e) (rw same k) in
      later ∙ same
