-- ===== src/Reqwest/Guard/Keeping.antt =====
-- What a guard returns over a run of calls, with others that write to the proxies in between.
use openscraper_framework.Prelude.{
  ℕ, true, false, Bool-cases, Option, Option-cases, none, some, List, [], ◌∷◌, All, ◌≡◌, refl, ap,
  ◌∙◌, arith, inl, inr, ◌⊎◌,
}
use openscraper_framework.Prelude.Int.{ℤ}
use openscraper_framework.Prelude.Text.{Text}
use openscraper_framework.Reqwest.World.{World, drops_in, Manager, FetchByIpLocation}
use openscraper_framework.Reqwest.Guard.{
  ProxyGuard, create, acquire_proxy, release_proxy, check_proxy_and_close_idle_conn, renewed,
  from_pool, from_fetcher, fetched, released, checked, unless_zero,
}
use openscraper_framework.Reqwest.Guard.Holding.{
  IsUsable, Call, acquire, release, check, others, call, call_all,
}

-- What the calls of AcquireProxy in a run return, a proxy and an error each.
unfoldable pub answers :
    {P F Err : Type 0}
    → Manager P Err
    → FetchByIpLocation F
    → List (Call P F)
    → ProxyGuard P F
    → World
    → List (Option ℕ × Option Err)
answers pool_acquire fetch [] g w = []
answers pool_acquire fetch (acquire now ∷ cs) g w =
    let got = acquire_proxy pool_acquire fetch now g w in
    (got.proxy, got.err) ∷ answers pool_acquire fetch cs got.state got.world
answers pool_acquire fetch (release ∷ cs) g w =
    let (g', w') = release_proxy g w in answers pool_acquire fetch cs g' w'
answers pool_acquire fetch (check now ∷ cs) g w =
    answers pool_acquire fetch cs (check_proxy_and_close_idle_conn now g w) w
answers pool_acquire fetch (others f ∷ cs) g w = answers pool_acquire fetch cs g (f w)

-- The proxy is usable at each call that looks at it, and is not released.
abbrev pub StaysUsable : {P F : Type 0} → ℤ → ℕ → List (Call P F) → World → Type 0
StaysUsable drop_in ref [] w = Unit
StaysUsable drop_in ref (acquire now ∷ cs) w =
    IsUsable now drop_in w ref × StaysUsable drop_in ref cs w
StaysUsable drop_in ref (release ∷ cs) w = ⊥
StaysUsable drop_in ref (check now ∷ cs) w =
    IsUsable now drop_in w ref × StaysUsable drop_in ref cs w
StaysUsable drop_in ref (others f ∷ cs) w = StaysUsable drop_in ref cs (f w)

-- What the others write.
abbrev pub written : {P F : Type 0} → List (Call P F) → World → World
written [] w = w
written (others f ∷ cs) w = written cs (f w)
written (_ ∷ cs) w = written cs w

module _ {P F Err : Type 0} (pool_acquire : Manager P Err) (fetch : FetchByIpLocation F) where
  create-usable :
      (now : ℕ) (drop_in : ℤ) (w : World) (ref : ℕ)
      → IsUsable now drop_in w ref
      → create now drop_in w (some ref) ≡ false
  unfolding create
  create-usable now drop_in w ref u = ground (arith, u)

  create-unusable :
      (now : ℕ) (drop_in : ℤ) (w : World) (ref : ℕ)
      → ((w.proxies ref).invalid ≡ true) ⊎ (drops_in now drop_in (w.proxies ref) ≡ true)
      → create now drop_in w (some ref) ≡ true
  unfolding create
  create-unusable now drop_in w ref (inl u) = rw u
  create-unusable now drop_in w ref (inr u) = rw u (ground arith)

  acquire_proxy-usable :
      (now : ℕ) (g : ProxyGuard P F) (w : World) (ref : ℕ)
      → g.proxy ≡ some ref
      → IsUsable now g.drop_in w ref
      → acquire_proxy pool_acquire fetch now g w
        ≡ record { state = g; world = w; proxy = some ref; err = none }
  unfolding acquire_proxy
  acquire_proxy-usable now g w ref a u =
      let c : create now g.drop_in w g.proxy ≡ false = rw a (create-usable now g.drop_in w ref u) in
      rw (c, a)

  check-usable :
      (now : ℕ) (g : ProxyGuard P F) (w : World) (ref : ℕ)
      → g.proxy ≡ some ref
      → IsUsable now g.drop_in w ref
      → check_proxy_and_close_idle_conn now g w ≡ g
  unfolding check_proxy_and_close_idle_conn checked unless_zero
  check-usable now g w ref a (v, u) = ap (checked now g w g.proxy_pool) a ∙ by_pool g.proxy_pool
    where
      by_expire : (o : Option ℕ) → unless_zero now g w ref o ≡ g
      by_expire none = refl
      by_expire (some expire) = rw u

      by_pool : (o : Option P) → checked now g w o (some ref) ≡ g
      by_pool none = refl
      by_pool (some p) = by_expire (w.proxies ref).expire

  held :
      (cs : List (Call P F)) (g : ProxyGuard P F) (w : World) (ref : ℕ)
      → g.proxy ≡ some ref
      → StaysUsable g.drop_in ref cs w
      → All (λ a. a ≡ (some ref, none)) (answers pool_acquire fetch cs g w)
        × (call_all pool_acquire fetch cs g w ≡ (g, written cs w))
  unfolding answers call_all call
  held [] g w ref a s = (tt, refl)
  held (acquire now ∷ cs) g w ref a (u, s) =
      let (x, y) = held cs g w ref a s in
      let e = acquire_proxy-usable now g w ref a u in rw e ((refl, x), y)
  held (release ∷ cs) g w ref a s = absurd s
  held (check now ∷ cs) g w ref a (u, s) = rw (check-usable now g w ref a u) (held cs g w ref a s)
  held (others f ∷ cs) g w ref a s = held cs g (f w) ref a s

  -- A guard with a pool and no proxy asks the pool. Where the pool gives one, the guard keeps it: over
  -- any calls of AcquireProxy and CheckProxyAndCloseIdleConn, whatever others write to the proxies, as long
  -- as the proxy is valid and does not run out soon at each of these calls, every AcquireProxy returns it
  -- without an error, and neither the guard, its pool nor the proxies are changed by them. The first
  -- AcquireProxy at which it is invalid or runs out soon returns what the pool does then, the error included.
  pub answers-kept :
      (now later : ℕ) (cs : List (Call P F)) (g : ProxyGuard P F) (w : World) (p : P) (ref : ℕ)
      → g.proxy_pool ≡ some p
      → g.proxy ≡ none
      → (pool_acquire now p w).proxy ≡ some ref
      → StaysUsable g.drop_in ref cs (pool_acquire now p w).world
      → let first = pool_acquire now p w in
        let got = acquire_proxy pool_acquire fetch now g w in
        let w' = written cs first.world in
        ((got.proxy ≡ some ref) × (got.err ≡ first.err) × (got.world ≡ first.world))
        × All (λ a. a ≡ (some ref, none)) (answers pool_acquire fetch cs got.state got.world)
        × (call_all pool_acquire fetch cs got.state got.world ≡ (got.state, w'))
        × (((w'.proxies ref).invalid ≡ true) ⊎ (drops_in later g.drop_in (w'.proxies ref) ≡ true)
            → let next = pool_acquire later first.state w' in
              let renewal = acquire_proxy pool_acquire fetch later got.state w' in
              (renewal.proxy ≡ next.proxy)
              × (renewal.err ≡ next.err)
              × (renewal.state.proxy_pool ≡ some next.state))
  answers-kept now later cs g w p ref e n a s =
      let first = pool_acquire now p w in
      let g' : ProxyGuard P F = record g { proxy = first.proxy; proxy_pool = some first.state } in
      let asked : acquire_proxy pool_acquire fetch now g w
          ≡ record { state = g'; world = first.world; proxy = first.proxy; err = first.err } =
        unfold acquire_proxy create renewed from_pool in rw (n, e) in
      let (x, y) = held cs g' first.world ref a s in
      rw asked (
        (a, refl, refl),
        x,
        y,
        λ u.
            let c : create later g.drop_in (written cs first.world) first.proxy ≡ true =
              rw a (create-unusable later g.drop_in (written cs first.world) ref u) in
            unfold acquire_proxy renewed from_pool in (rw c, rw c, rw c),
      )

  fetching_nothing :
      (now : ℕ) (g : ProxyGuard P F) (w : World) (ref : ℕ)
      → ((city location : Text) (f : F) (v : World) → (fetch city location f v).proxy ≡ none)
      → g.proxy_pool ≡ none
      → g.proxy ≡ some ref
      → let got = acquire_proxy pool_acquire fetch now g w in
        (got.proxy ≡ some ref)
        × (got.err ≡ none)
        × (got.state.proxy_pool ≡ none)
        × (got.state.proxy ≡ some ref)
  unfolding acquire_proxy renewed from_fetcher fetched
  fetching_nothing now g w ref nothing e a = elim (Bool-cases (create now g.drop_in w g.proxy)) [
    | inl t ↦ elim (Option-cases g.proxy_fetcher) [
      | inl k ↦ rw (t, e, k) (a, refl, refl, a)
      | inr (f, k) ↦
          rw (t, e, k, nothing g.fetch_by_city g.fetch_by_ip_location f w) (a, refl, refl, a)
    ]
    | inr t ↦ rw t (a, refl, e, a)
  ]

  -- A guard without a pool that holds a proxy returns it, with no error, at every AcquireProxy of any run of
  -- calls, as long as its fetcher finds none: whatever others write to the proxy, the mark of a failed dial
  -- included, however long it has run out, and also behind a ReleaseProxy.
  pub answers-stale :
      (cs : List (Call P F)) (g : ProxyGuard P F) (w : World) (ref : ℕ)
      → ((city location : Text) (f : F) (v : World) → (fetch city location f v).proxy ≡ none)
      → g.proxy_pool ≡ none
      → g.proxy ≡ some ref
      → All (λ a. a ≡ (some ref, none)) (answers pool_acquire fetch cs g w)
  unfolding answers
  answers-stale [] g w ref nothing e a = tt
  answers-stale (acquire now ∷ cs) g w ref nothing e a =
      let (x, y, e', a') = fetching_nothing now g w ref nothing e a in
      let got = acquire_proxy pool_acquire fetch now g w in
      (rw (x, y), answers-stale cs got.state got.world ref nothing e' a')
  answers-stale (release ∷ cs) g w ref nothing e a =
      let r : release_proxy g w ≡ (g, w) = unfold release_proxy released in rw e in
      rw r (answers-stale cs g w ref nothing e a)
  answers-stale (check now ∷ cs) g w ref nothing e a =
      let r : check_proxy_and_close_idle_conn now g w ≡ g =
        unfold check_proxy_and_close_idle_conn checked in rw e in
      rw r (answers-stale cs g w ref nothing e a)
  answers-stale (others f ∷ cs) g w ref nothing e a = answers-stale cs g (f w) ref nothing e a
