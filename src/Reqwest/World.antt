-- ===== src/Reqwest/World.antt =====
-- What the clients of reqwest share: the proxies, which are objects that a pool, a guard and a dial may
-- hold at once (reqwest/proxz/proxy.go), the counters, and the interfaces of reqwest/proxz/pool.go.
use openscraper_framework.Prelude.{ℕ, suc, Bool, true, ◌==◌, Option, none, some, if◌then◌else◌}
use openscraper_framework.Prelude.Int.{ℤ, negsuc, sub_ℕ, ltb_ℤ}
use openscraper_framework.Prelude.Text.{Text}
use openscraper_framework.ProxyPool.Config.{Protocol}
use openscraper_framework.Reqwest.Stats.{Stats}

-- The fields of ProxyIp that clients read; `none` is the zero time.
pub record ProxyIp : Type 0 where
  pub host : Text
  pub expire : Option ℕ
  pub protocol : Protocol
  pub invalid : Bool
  pub auth_user : Text
  pub auth_pwd : Text

-- A pointer to a proxy is a number; those from `fresh` on point to nothing yet.
pub record World : Type 0 where
  pub proxies : ℕ → ProxyIp
  pub fresh : ℕ
  pub stats : Stats

abbrev pub put_proxy : ℕ → ProxyIp → World → World
put_proxy ref p w = record w { proxies = λ r. if r == ref then p else w.proxies r }

abbrev pub new_proxy : ProxyIp → World → World
new_proxy p w = record w {
  proxies = λ r. if r == w.fresh then p else w.proxies r;
  fresh = suc w.fresh;
}

-- proxy.Invalid = true
abbrev pub invalidate : ℕ → World → World
invalidate ref w = put_proxy ref (record (w.proxies ref) { invalid = true }) w

abbrev pub count_in : (Stats → Stats) → World → World
count_in f w = record w { stats = f w.stats }

-- time.Until(Expire), which is the least duration for the zero time.
abbrev pub time_until : ℕ → Option ℕ → ℤ
time_until now none = negsuc 9223372036854775807
time_until now (some expire) = sub_ℕ expire now

abbrev pub drops_in : ℕ → ℤ → ProxyIp → Bool
drops_in now drop_in p = ltb_ℤ (time_until now p.expire) drop_in

-- What an AcquireProxy returns, with the state of its object: a pointer that may be nil, and an error.
pub record Got (S Err : Type 0) : Type 0 where
  pub state : S
  pub world : World
  pub proxy : Option ℕ
  pub err : Option Err

-- ProxyPoolManager, called at a time.
abbrev pub Manager : Type 0 → Type 0 → Type 0
Manager S Err = ℕ → S → World → Got S Err

-- FetchByIpLocation of a ProxyFetcher, which returns a pointer that may be nil.
pub record Fetched (F : Type 0) : Type 0 where
  pub state : F
  pub world : World
  pub proxy : Option ℕ

abbrev pub FetchByIpLocation : Type 0 → Type 0
FetchByIpLocation F = Text → Text → F → World → Fetched F
