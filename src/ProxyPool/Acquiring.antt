-- ===== src/ProxyPool/Acquiring.antt =====
-- What AcquireProxy returns.
use openscraper_framework.Prelude.{
  ℕ, suc, false, Bool-cases, some, List, [], ◌∷◌, ◌≡◌, refl, arith, inl, inr, ◌⊎◌,
}
use openscraper_framework.ProxyPool.{
  ClassicPool, ProxyIp, Arrival, proxy_comes, timer_fires, got, is_expired, filter, taken,
  acquire_proxy,
}

-- The proxy came before the timer fired, and its expiry was not near.
abbrev pub CameFresh : ClassicPool → ProxyIp → List Arrival → Type 0
CameFresh m p [] = ⊥
CameFresh m p (timer_fires ∷ arrivals) = ⊥
CameFresh m p (proxy_comes q now ∷ arrivals) =
    ((q ≡ p) × (is_expired m q now ≡ false)) ⊎ CameFresh m p arrivals

drop_point-taken :
    (m : ClassicPool) (p : ProxyIp) (now : ℕ)
    → (taken m p now).0.drop_proxy_point ≡ m.drop_proxy_point
unfolding taken filter
drop_point-taken m p now = ground arith

CameFresh-same :
    (m m' : ClassicPool) (p : ProxyIp) (arrivals : List Arrival)
    → m'.drop_proxy_point ≡ m.drop_proxy_point
    → CameFresh m' p arrivals
    → CameFresh m p arrivals
CameFresh-same m m' p [] e c = c
CameFresh-same m m' p (timer_fires ∷ arrivals) e c = c
CameFresh-same m m' p (proxy_comes q now ∷ arrivals) e (inl (same, f)) = inl (same, rw (← e) f)
CameFresh-same m m' p (proxy_comes q now ∷ arrivals) e (inr c) =
    inr (CameFresh-same m m' p arrivals e c)

-- A proxy that AcquireProxy returns came before the timer fired, and at that time was at least
-- dropProxyPoint away from its expiry.
pub acquire_proxy-CameFresh :
    (m : ClassicPool) (arrivals : List Arrival) (p : ProxyIp)
    → (acquire_proxy m arrivals).1 ≡ some (got p)
    → CameFresh m p arrivals
unfolding acquire_proxy
acquire_proxy-CameFresh m [] p e = absurd (cc)
acquire_proxy-CameFresh m (timer_fires ∷ arrivals) p e = absurd (cc)
acquire_proxy-CameFresh m (proxy_comes q now ∷ arrivals) p e =
    elim (Bool-cases (is_expired m q now)) [
      | inl x ↦
          let m' : ClassicPool = record m { expired_proxies = suc m.expired_proxies } in
          inr (
            CameFresh-same m m' p arrivals refl (acquire_proxy-CameFresh m' arrivals p (rw x at e)))
      | inr x ↦ elim (Bool-cases (taken m q now).1) [
        | inl t ↦ inl (ground arith, x)
        | inr t ↦ inr (
            CameFresh-same m (taken m q now).0 p arrivals (drop_point-taken m q now)
              (acquire_proxy-CameFresh (taken m q now).0 arrivals p (rw (x, t) at e)))
      ]
    ]
