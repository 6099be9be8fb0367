-- ===== src/Examples/Guards.antt =====
-- A guard over a pool that hands out a new proxy at each call, and clients that use it.
use openscraper_framework.Prelude.{
  All, ℕ, ◌+◌, ◌-◌, suc, Bool, true, false, none, some, [], ◌∷◌, List, ◌≡◌, ◌⊎◌, inl, refl, arith,
  ◌%◌,
}
use openscraper_framework.Prelude.Int.{pos}
use openscraper_framework.Prelude.Text.{bytes}
use openscraper_framework.ProxyPool.Config.{protocol_http, ProxyConfig}
use openscraper_framework.Reqwest.Stats.{
  zeros, released, expired, ticked, count_all, since_tick, count_all_lem,
}
use openscraper_framework.Reqwest.World.{
  invalidate, drops_in, ProxyIp, World, new_proxy, Manager, FetchByIpLocation,
}
use openscraper_framework.Reqwest.Guard.{ProxyGuard, new_proxy_guard, acquire_proxy, http_proxy}
use openscraper_framework.Reqwest.Guard.Dial.{Dialers, pool_dial}
use openscraper_framework.Reqwest.Guard.Dial.Redial.{acquire_proxy-pool_dial}
use openscraper_framework.Reqwest.Guard.Keeping.{answers, written, answers-kept, answers-stale}
use openscraper_framework.Reqwest.Guard.Holding.{others, call_all, Call, acquire, release, check}
use openscraper_framework.Reqwest.Clients.{
  HttpClient, Inner, Kinds, do_timeout, do_request_timeout_and_retry,
}
use openscraper_framework.Reqwest.Clients.Retrying.{Retried, do_request_timeout_and_retry-Retried}

abbrev proxy_until : ℕ → ProxyIp
proxy_until expire = record {
  host = bytes "1.2.3.4:80";
  expire = some expire;
  protocol = protocol_http;
  invalid = false;
  auth_user = [];
  auth_pwd = [];
}

-- The pool counts its proxies, which last for 60 units.
abbrev counting : Manager ℕ ℕ
counting now n w = record {
  state = suc n;
  world = new_proxy (proxy_until (now + 60)) w;
  proxy = some w.fresh;
  err = none;
}

abbrev finds_nothing : FetchByIpLocation ℕ
finds_nothing city location f w = record { state = f; world = w; proxy = none }

abbrev start : World
start = record { proxies = λ r. proxy_until 60; fresh = 1; stats = zeros }

abbrev with_pool : ProxyGuard ℕ ℕ
with_pool = record (new_proxy_guard (pos 5) [] []) { proxy = some 0; proxy_pool = some 0 }

abbrev with_fetcher : ProxyGuard ℕ ℕ
with_fetcher = record (new_proxy_guard (pos 5) (bytes "310000") []) {
  proxy = some 0;
  proxy_fetcher = some 0;
}

-- Every dial is refused.
abbrev refusing : Dialers Bool ℕ
refusing = record { http_dialer = λ host addr. (none, some 7); socks5 = λ host auth. inl 8 }

kept : (acquire_proxy counting finds_nothing 10 with_pool start).proxy ≡ some 0
unfolding acquire_proxy
kept = refl

renewed : (acquire_proxy counting finds_nothing 56 with_pool start).proxy ≡ some 1
unfolding acquire_proxy
renewed = refl

abbrev new_with_pool : ProxyGuard ℕ ℕ
new_with_pool = record (new_proxy_guard (pos 5) [] []) { proxy_pool = some 0 }

abbrev looking : List (Call ℕ ℕ)
looking = acquire 20 ∷ others (invalidate 0) ∷ check 30 ∷ acquire 40 ∷ []

-- The pool's proxy lasts until 70, and is renewed at 66.
answers-kept_example :
    let first = counting 10 0 start in
    let got = acquire_proxy counting finds_nothing 10 new_with_pool start in
    let w' = written looking first.world in
    ((got.proxy ≡ some 1) × (got.err ≡ first.err) × (got.world ≡ first.world))
    × All (λ a. a ≡ (some 1, none)) (answers counting finds_nothing looking got.state got.world)
    × (call_all counting finds_nothing looking got.state got.world ≡ (got.state, w'))
    × (((w'.proxies 1).invalid ≡ true) ⊎ (drops_in 66 (pos 5) (w'.proxies 1) ≡ true)
        → let next = counting 66 first.state w' in
          let renewal = acquire_proxy counting finds_nothing 66 got.state w' in
          (renewal.proxy ≡ next.proxy)
          × (renewal.err ≡ next.err)
          × (renewal.state.proxy_pool ≡ some next.state))
answers-kept_example =
    answers-kept counting finds_nothing 10 66 looking new_with_pool start 0 1 refl refl refl
      ((refl, refl), ((refl, refl), ((refl, refl), tt)))

abbrev failing : List (Call ℕ ℕ)
failing = acquire 10 ∷ others (invalidate 0) ∷ acquire 20 ∷ release ∷ check 70 ∷ acquire 90 ∷ []

answers-stale_example :
    All (λ a. a ≡ (some 0, none)) (answers counting finds_nothing failing with_fetcher start)
answers-stale_example =
    answers-stale counting finds_nothing failing with_fetcher start 0 (λ city location f v. refl)
      refl refl

abbrev sourceless : ProxyGuard ℕ ℕ
sourceless = record (new_proxy_guard (pos 5) [] []) { proxy = some 0 }

acquire_proxy-pool_dial_example :
    let d =
      pool_dial refusing (acquire_proxy counting finds_nothing) 10 (bytes "a:1") with_pool start in
    let again = acquire_proxy counting finds_nothing 20 d.state d.world in
    (again.proxy ≡ (counting 20 0 d.world).proxy) × (again.err ≡ (counting 20 0 d.world).err)
acquire_proxy-pool_dial_example =
    acquire_proxy-pool_dial counting finds_nothing refusing (bytes "a:1") 10 20 with_pool start none
      7 0 (unfold pool_dial acquire_proxy in refl) (unfold pool_dial acquire_proxy in refl)

abbrev fixed_proxy : ProxyConfig
fixed_proxy = record {
  protocol = protocol_http;
  provider = [];
  proxy = bytes "me:pw@9.9.9.9:80";
  classic = false;
  params = λ key. [];
}

abbrev fixed_guard : ProxyGuard ℕ ℕ
fixed_guard = record (new_proxy_guard (pos 5) [] []) {
  proxy = some 1;
  proxy_dialer = some (http_proxy (bytes "me:pw@9.9.9.9:80"));
}

abbrev fixed_world : World
fixed_world =
    new_proxy
      (record {
        host = bytes "me:pw@9.9.9.9:80";
        expire = none;
        protocol = protocol_http;
        invalid = false;
        auth_user = [];
        auth_pwd = [];
      })
      start

-- An inner client whose connection is always closed.
abbrev closing : Inner ℕ ℕ ℕ ℕ
closing g w = record { guard = g; world = w; outcome = inl 3 }

abbrev kinds : Kinds ℕ
kinds = record {
  is_connection_closed = λ e. true;
  is_not_tls = λ e. false;
  is_handshake_timeout = λ e. false;
}

abbrev client : HttpClient ℕ ℕ
client = record { guard = with_pool; world = start; failed_times = 2 }

do_request_timeout_and_retry-Retried_example :
    Retried 3 client
      (do_request_timeout_and_retry (do_timeout kinds closing) (λ k. 50 - k) (pos 3) client)
do_request_timeout_and_retry-Retried_example =
    do_request_timeout_and_retry-Retried kinds closing (λ g w. (refl, refl)) (λ k. 50 - k) 2 client
      (omega arith)

count_all_lem_example :
    ((count_all (released ∷ ticked ∷ expired ∷ released ∷ []) zeros).release_proxies ≡ 0)
    × ((count_all (released ∷ ticked ∷ expired ∷ released ∷ []) zeros).expired_proxies
        ≡ since_tick (released ∷ ticked ∷ expired ∷ released ∷ []) 0 % 4294967296)
count_all_lem_example = count_all_lem (released ∷ ticked ∷ expired ∷ released ∷ [])
