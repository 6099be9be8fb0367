-- ===== src/ProxyPool/Returning.antt =====
-- When AcquireProxy returns, and with what.
use openscraper_framework.Prelude.{
  ℕ, suc, ◌+◌, ◌++◌, All, true, false, Option, some, if◌then◌else◌, List, [], ◌∷◌, ◌≡◌, ◌⊎◌,
}
use openscraper_framework.Prelude.Int.{pos, ltb_ℤ}
use openscraper_framework.Prelude.Dict
use openscraper_framework.ProxyPool.{
  unix, used_lately, ClassicPool, Arrival, proxy_comes, timer_fires, Outcome, got, err_timeout,
  is_expired,
}

-- The timer fires at some time.
abbrev pub Fires : List Arrival → Type 0
Fires [] = ⊥
Fires (timer_fires ∷ arrivals) = Unit
Fires (proxy_comes q now ∷ arrivals) = Fires arrivals

-- By the state in which the wait began: the proxy expires soon.
abbrev pub Expires : ClassicPool → Arrival → Type 0
Expires m timer_fires = ⊥
Expires m (proxy_comes p now) = is_expired m p now ≡ true

-- Its host was used a short time ago.
abbrev pub WasUsed : ClassicPool → Arrival → Type 0
WasUsed m timer_fires = ⊥
WasUsed m (proxy_comes p now) =
    (is_expired m p now ≡ false)
    × (ltb_ℤ (pos 0) m.filter_proxy_sec ≡ true)
    × (used_lately m (unix now) (Dict.get p.host m.time_filter) ≡ true)

-- How many proxies of those that are thrown away expire soon.
abbrev pub expired_among : ClassicPool → List Arrival → ℕ
expired_among m [] = 0
expired_among m (timer_fires ∷ arrivals) = expired_among m arrivals
expired_among m (proxy_comes p now ∷ arrivals) =
    if is_expired m p now then suc (expired_among m arrivals) else expired_among m arrivals

abbrev pub counted : ClassicPool → ℕ → ClassicPool
counted m n = record m { expired_proxies = m.expired_proxies + n }

-- What the wait ends with, behind the proxies that were thrown away.
abbrev pub Ends : ClassicPool → ℕ → List Arrival → Arrival → ClassicPool × Option Outcome → Type 0
Ends m k before timer_fires r = r ≡ (
  record (counted m (k + expired_among m before)) {
    acquire_proxies_timeout = suc m.acquire_proxies_timeout;
  },
  some err_timeout,
)
Ends m k before (proxy_comes p now) r =
    (is_expired m p now ≡ false)
    × ((ltb_ℤ (pos 0) m.filter_proxy_sec ≡ false)
        ⊎ (used_lately m (unix now) (Dict.get p.host m.time_filter) ≡ false))
    × (r.1 ≡ some (got p))
    × (r.0.expired_proxies ≡ m.expired_proxies + (k + expired_among m before))
    × (r.0.acquire_proxies_timeout ≡ m.acquire_proxies_timeout)

abbrev pub Returns : ClassicPool → ℕ → List Arrival → ClassicPool × Option Outcome → Type 0
Returns m k arrivals r =
    (before : List Arrival) × (last : Arrival) × (later : List Arrival) × (arrivals
      ≡ before ++ last ∷ later)
    × All (λ a. Expires m a ⊎ WasUsed m a) before
    × Ends m k before last r
