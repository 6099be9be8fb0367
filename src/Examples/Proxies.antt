-- ===== src/Examples/Proxies.antt =====
-- A pool whose proxies rest for ten seconds.
use openscraper_framework.Prelude.{ℕ, some, List, [], ◌∷◌, ◌≡◌, refl, arith}
use openscraper_framework.Prelude.Int.{pos}
use openscraper_framework.Prelude.Text.{Text, bytes}
use openscraper_framework.ProxyPool.{
  Arrival, ProxyIp, Arrival, proxy_comes, timer_fires, got, new_classic_pool, taken, acquire_proxy,
}
use openscraper_framework.ProxyPool.Spacing.{Spaced, filter_all, filter_all-Spaced}
use openscraper_framework.ProxyPool.Acquiring.{CameFresh, acquire_proxy-CameFresh}

-- The second call comes too soon, the third one does not.
abbrev three_calls : List (Text × ℕ)
three_calls = (bytes "a", 100) ∷ (bytes "a", 109) ∷ (bytes "a", 110) ∷ []

filter_all-Spaced_example :
    Spaced 10 (filter_all (new_classic_pool (pos 0) (pos 10) (pos 0)) [] three_calls).1
filter_all-Spaced_example =
    filter_all-Spaced (pos 0) (pos 0) 10 three_calls (omega arith)
      (omega arith, (omega arith, (omega arith, tt)))

abbrev near_proxy : ProxyIp
near_proxy = record { host = bytes "a"; expire = 7000000000 }

abbrev far_proxy : ProxyIp
far_proxy = record { host = bytes "b"; expire = 90000000000 }

-- The first proxy expires in four seconds, below the default of five.
abbrev two_arrivals : List Arrival
two_arrivals = proxy_comes near_proxy 3000000000 ∷ proxy_comes far_proxy 4000000000 ∷ []

far_proxy_taken :
    (acquire_proxy (new_classic_pool (pos 0) (pos 0) (pos 0)) two_arrivals).1 ≡ some (got far_proxy)
unfolding acquire_proxy new_classic_pool taken
far_proxy_taken = refl

acquire_proxy-CameFresh_example :
    CameFresh (new_classic_pool (pos 0) (pos 0) (pos 0)) far_proxy two_arrivals
acquire_proxy-CameFresh_example =
    acquire_proxy-CameFresh (new_classic_pool (pos 0) (pos 0) (pos 0)) two_arrivals far_proxy
      far_proxy_taken

abbrev timed_out : List Arrival
timed_out = proxy_comes near_proxy 3000000000 ∷ timer_fires ∷ []
