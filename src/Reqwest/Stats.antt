-- ===== src/Reqwest/Stats.antt =====
-- reqwest/stats/stats.go: the counters, of 32 bits each. A tick logs and resets them.
use openscraper_framework.Prelude.{ℕ, ◌+◌, ◌%◌, List, [], ◌∷◌, ◌≡◌, refl, arith}

pub record Stats : Type 0 where
  pub acquire_proxies : ℕ
  pub dial_proxies : ℕ
  pub dial_failed_proxies : ℕ
  pub expired_proxies : ℕ
  pub acquire_proxies_timeout : ℕ
  pub release_proxies : ℕ
  pub closed_proxies : ℕ
  pub request : ℕ
  pub request_failed : ℕ

-- atomic.AddUint32
abbrev pub add_uint32 : ℕ → ℕ → ℕ
add_uint32 n k = (n + k) % 4294967296

abbrev pub incr_acquire_proxies : ℕ → Stats → Stats
incr_acquire_proxies n s = record s { acquire_proxies = add_uint32 s.acquire_proxies n }

abbrev pub incr_dial_proxies : Stats → Stats
incr_dial_proxies s = record s { dial_proxies = add_uint32 s.dial_proxies 1 }

abbrev pub incr_dial_failed_proxies : Stats → Stats
incr_dial_failed_proxies s = record s { dial_failed_proxies = add_uint32 s.dial_failed_proxies 1 }

abbrev pub incr_expired_proxies : Stats → Stats
incr_expired_proxies s = record s { expired_proxies = add_uint32 s.expired_proxies 1 }

abbrev pub incr_acquire_proxies_timeout : Stats → Stats
incr_acquire_proxies_timeout s = record s {
  acquire_proxies_timeout = add_uint32 s.acquire_proxies_timeout 1;
}

-- The counter is that of the expired proxies, as in the source.
abbrev pub incr_release_proxies : Stats → Stats
incr_release_proxies s = record s { expired_proxies = add_uint32 s.expired_proxies 1 }

abbrev pub incr_closed_proxies : Stats → Stats
incr_closed_proxies s = record s { closed_proxies = add_uint32 s.closed_proxies 1 }

abbrev pub incr_request : Stats → Stats
incr_request s = record s { request = add_uint32 s.request 1 }

abbrev pub incr_request_failed : Stats → Stats
incr_request_failed s = record s { request_failed = add_uint32 s.request_failed 1 }

-- The calls of the package, and a tick.
pub data Count : Type 0 where
  acquired : ℕ → Count
  dialed dial_failed expired timed_out released closed requested failed ticked : Count

abbrev pub zeros : Stats
zeros = record {
  acquire_proxies = 0;
  dial_proxies = 0;
  dial_failed_proxies = 0;
  expired_proxies = 0;
  acquire_proxies_timeout = 0;
  release_proxies = 0;
  closed_proxies = 0;
  request = 0;
  request_failed = 0;
}

unfoldable pub count : Count → Stats → Stats
count (acquired n) s = incr_acquire_proxies n s
count dialed s = incr_dial_proxies s
count dial_failed s = incr_dial_failed_proxies s
count expired s = incr_expired_proxies s
count timed_out s = incr_acquire_proxies_timeout s
count released s = incr_release_proxies s
count closed s = incr_closed_proxies s
count requested s = incr_request s
count failed s = incr_request_failed s
count ticked s = zeros

unfoldable pub count_all : List Count → Stats → Stats
unfolding count
count_all [] s = s
count_all (c ∷ cs) s = count_all cs (count c s)

-- How often proxies were released, and how often one expired, behind the last tick.
unfoldable pub since_tick : List Count → ℕ → ℕ
since_tick [] n = n
since_tick (ticked ∷ cs) n = since_tick cs 0
since_tick (expired ∷ cs) n = since_tick cs (n + 1)
since_tick (released ∷ cs) n = since_tick cs (n + 1)
since_tick (c ∷ cs) n = since_tick cs n

count_all-expired :
    (cs : List Count) (s : Stats) (n : ℕ)
    → s.expired_proxies ≡ n % 4294967296
    → (count_all cs s).expired_proxies ≡ since_tick cs n % 4294967296
unfolding count_all count since_tick
count_all-expired [] s n e = e
count_all-expired (acquired k ∷ cs) s n e = count_all-expired cs (incr_acquire_proxies k s) n e
count_all-expired (dialed ∷ cs) s n e = count_all-expired cs (incr_dial_proxies s) n e
count_all-expired (dial_failed ∷ cs) s n e = count_all-expired cs (incr_dial_failed_proxies s) n e
count_all-expired (expired ∷ cs) s n e =
    count_all-expired cs (incr_expired_proxies s) (n + 1) (omega (arith, e))
count_all-expired (timed_out ∷ cs) s n e = count_all-expired cs (incr_acquire_proxies_timeout s) n e
count_all-expired (released ∷ cs) s n e =
    count_all-expired cs (incr_release_proxies s) (n + 1) (omega (arith, e))
count_all-expired (closed ∷ cs) s n e = count_all-expired cs (incr_closed_proxies s) n e
count_all-expired (requested ∷ cs) s n e = count_all-expired cs (incr_request s) n e
count_all-expired (failed ∷ cs) s n e = count_all-expired cs (incr_request_failed s) n e
count_all-expired (ticked ∷ cs) s n e = count_all-expired cs zeros 0 refl

count_all-released :
    (cs : List Count) (s : Stats) → s.release_proxies ≡ 0 → (count_all cs s).release_proxies ≡ 0
unfolding count_all
count_all-released [] s e = e
count_all-released (c ∷ cs) s e = count_all-released cs (count c s) (unfold count in kept c)
  where
    kept : (c : Count) → (count c s).release_proxies ≡ 0
    kept ticked = refl
    kept _ = e

-- From the start, whatever is counted and whenever the counters are reset, the counter of released
-- proxies stays 0, and that of expired proxies counts the released and the expired ones since the last
-- reset, modulo 2 ^ 32.
pub count_all_lem :
    (cs : List Count)
    → ((count_all cs zeros).release_proxies ≡ 0)
      × ((count_all cs zeros).expired_proxies ≡ since_tick cs 0 % 4294967296)
count_all_lem cs = (count_all-released cs zeros refl, count_all-expired cs zeros 0 refl)
