-- ===== src/ProxyPool.antt =====
-- reqwest/proxz/pool_classic.go: a pool that throws away the proxies that expire soon or were
-- used a short time ago. Times are nanoseconds, and seconds where the code calls Unix. The counters
-- of the package stats that the pool adds to are fields of the pool.
mod Memory
pub mod Spacing
pub mod Acquiring
pub mod Returning
pub mod Config
pub mod Registry
use openscraper_framework.Prelude.{
  ℕ, zero, suc, ◌/◌, Bool, true, false, not, ◌&&◌, Option, none, some, List, [], ◌∷◌, length, ltb,
  if◌then◌else◌,
}
use openscraper_framework.Prelude.Int.{ℤ, pos, sub_ℕ, ltb_ℤ}
use openscraper_framework.Prelude.Text.{Text}
use openscraper_framework.Prelude.Dict
use openscraper_framework.Prelude.Dict.{Dict}

-- The fields of a ProxyIp that the pool reads.
pub record ProxyIp : Type 0 where
  pub host : Text
  pub expire : ℕ

pub record ClassicPool : Type 0 where
  pub drop_proxy_point : ℤ
  pub filter_proxy_sec : ℤ
  pub get_proxy_timeout : ℤ
  pub time_filter : Dict ℕ
  pub expired_proxies : ℕ
  pub acquire_proxies_timeout : ℕ

abbrev if_zero : ℤ → ℤ → ℤ
if_zero (pos zero) default = default
if_zero v default = v

-- The three numbers are what the configuration's getters return.
unfoldable pub new_classic_pool : ℤ → ℤ → ℤ → ClassicPool
new_classic_pool drop_point filter_sec timeout = record {
  drop_proxy_point = if_zero drop_point (pos 5000000000);
  filter_proxy_sec = filter_sec;
  get_proxy_timeout = if_zero timeout (pos 15000000000);
  time_filter = [];
  expired_proxies = 0;
  acquire_proxies_timeout = 0;
}

-- The entries of the last three hours.
pub recent : ℕ → Dict ℕ → Dict ℕ
recent now [] = []
recent now ((p, ts) ∷ m) =
    if ltb_ℤ (pos 10800) (sub_ℕ now ts) then recent now m else (p, ts) ∷ recent now m

abbrev pub used_lately : ClassicPool → ℕ → Option ℕ → Bool
used_lately m now none = false
used_lately m now (some ts) = ltb_ℤ (sub_ℕ now ts) m.filter_proxy_sec

pub filter : ClassicPool → Text → ℕ → ClassicPool × Bool
unfolding recent
filter m ip now =
    let kept =
      if ltb 30000 (length m.time_filter) then recent now m.time_filter else m.time_filter in
    if used_lately m now (Dict.get ip m.time_filter)
    then (m, false)
    else (record m { time_filter = Dict.put ip now kept }, true)

-- What a wait in AcquireProxy ends with: a proxy, with the time at which it came, or the timer.
pub data Arrival : Type 0 where
  proxy_comes : ProxyIp → ℕ → Arrival
  timer_fires : Arrival

pub data Outcome : Type 0 where
  got : ProxyIp → Outcome
  err_timeout : Outcome

abbrev pub unix : ℕ → ℕ
unix now = now / 1000000000

abbrev pub is_expired : ClassicPool → ProxyIp → ℕ → Bool
is_expired m proxy now = ltb_ℤ (sub_ℕ proxy.expire now) m.drop_proxy_point

-- `m.filterProxySec > 0 && !m.filter(…)`: the Boolean tells that the proxy is taken.
unfoldable pub taken : ClassicPool → ProxyIp → ℕ → ClassicPool × Bool
unfolding filter
taken m proxy now =
    if ltb_ℤ (pos 0) m.filter_proxy_sec then filter m proxy.host (unix now) else (m, true)

-- AcquireProxy over the arrivals in their order; `none` is that it still waits.
unfoldable pub acquire_proxy : ClassicPool → List Arrival → ClassicPool × Option Outcome
unfolding taken
acquire_proxy m [] = (m, none)
acquire_proxy m (timer_fires ∷ arrivals) =
    (record m { acquire_proxies_timeout = suc m.acquire_proxies_timeout }, some err_timeout)
acquire_proxy m (proxy_comes proxy now ∷ arrivals) =
    let expired = acquire_proxy (record m { expired_proxies = suc m.expired_proxies }) arrivals in
    let (m', ok) = taken m proxy now in
    let later = acquire_proxy m' arrivals in
    if is_expired m proxy now then expired else if ok then (m', some (got proxy)) else later
