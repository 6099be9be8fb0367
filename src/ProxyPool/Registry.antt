-- ===== src/ProxyPool/Registry.antt =====
-- reqwest/proxz/pool.go: the registered providers and the pools that were made for them. The lock is
-- held for the whole of CreateProxyPool. A builder is the key of the fetcher that it builds, and a pool
-- is its number.
use openscraper_framework.Prelude.{
  ℕ, suc, ◌<◌, Option, Option-cases, none, some, ◌≡◌, refl, ◌∙◌, arith, inl, inr,
}
use openscraper_framework.Prelude.Text.{Text, eqb_iff, eqb_refl}
use openscraper_framework.Prelude.Dict
use openscraper_framework.Prelude.Dict.{Dict, get-put}
use openscraper_framework.ProxyPool.Config.{ProxyConfig}

abbrev pub Builder : Type 0
Builder = ProxyConfig → Text

pub record Pools : Type 0 where
  pub provider_builders : Dict Builder
  pub provider_pool : Dict ℕ
  pub made : ℕ

unfoldable pub register_provider : Text → Builder → Pools → Pools
register_provider name builder s = record s {
  provider_builders = Dict.put name builder s.provider_builders;
}

pool_at : Text → Pools → Option ℕ → Pools × Option ℕ
pool_at key s (some pool) = (s, some pool)
pool_at key s none = (
  record s { provider_pool = Dict.put key s.made s.provider_pool; made = suc s.made },
  some s.made,
)

built : ProxyConfig → Pools → Option Builder → Pools × Option ℕ
unfolding pool_at
built c s none = (s, none)
built c s (some builder) = pool_at (builder c) s (Dict.get (builder c) s.provider_pool)

unfoldable pub create_proxy_pool : ProxyConfig → Pools → Pools × Option ℕ
unfolding built
create_proxy_pool c s = built c s (Dict.get c.provider s.provider_builders)

-- The key of the fetcher that a configuration leads to.
abbrev key_with : ProxyConfig → Option Builder → Option Text
key_with c none = none
key_with c (some builder) = some (builder c)

abbrev pub fetcher_key : Pools → ProxyConfig → Option Text
fetcher_key s c = key_with c (Dict.get c.provider s.provider_builders)

-- Different keys have different pools, and their numbers are below that of the next one.
pub record IsRegistry (s : Pools) : Type 0 where
  pub below : (k : Text) (p : ℕ) → Dict.get k s.provider_pool ≡ some p → p < s.made
  pub apart :
      (j k : Text) (p : ℕ)
      → Dict.get j s.provider_pool ≡ some p
      → Dict.get k s.provider_pool ≡ some p
      → j ≡ k

pool_at_again :
    (key : Text) (s : Pools) (o : Option ℕ)
    → Dict.get key s.provider_pool ≡ o
    → let (s', p) = pool_at key s o in pool_at key s' (Dict.get key s'.provider_pool) ≡ (s', p)
unfolding pool_at
pool_at_again key s none e = rw (get-put key key, eqb_refl key)
pool_at_again key s (some p) e = rw e

create_at :
    (c : ProxyConfig) (s : Pools) (key : Text)
    → fetcher_key s c ≡ some key
    → create_proxy_pool c s ≡ pool_at key s (Dict.get key s.provider_pool)
unfolding create_proxy_pool built
create_at c s key e = elim (Option-cases (Dict.get c.provider s.provider_builders)) [
  | inl g ↦ let no : key_with c none ≡ some key = rw g at e in absurd (cc)
  | inr (builder, g) ↦
      let yes : key_with c (some builder) ≡ some key = rw g at e in
      let same : builder c ≡ key = ground arith in rw g (rw same)
]

builders-pool_at :
    (key : Text) (s : Pools) (o : Option ℕ)
    → (pool_at key s o).0.provider_builders ≡ s.provider_builders
unfolding pool_at
builders-pool_at key s none = refl
builders-pool_at key s (some p) = refl

-- Two configurations that lead to one fetcher share their pool: the second call makes none, and returns
-- the pool of the first.
pub create_proxy_pool-again :
    (c d : ProxyConfig) (s : Pools) (key : Text)
    → fetcher_key s c ≡ some key
    → fetcher_key s d ≡ some key
    → create_proxy_pool d (create_proxy_pool c s).0 ≡ create_proxy_pool c s
create_proxy_pool-again c d s key e f =
    let o = Dict.get key s.provider_pool in
    let kept = builders-pool_at key s o in
    rw (create_at c s key e)
      (create_at d (pool_at key s o).0 key (rw kept f) ∙ pool_at_again key s o refl)

pool_at-IsRegistry :
    (key : Text) (s : Pools) (o : Option ℕ)
    → Dict.get key s.provider_pool ≡ o
    → IsRegistry s
    → IsRegistry (pool_at key s o).0
unfolding pool_at
pool_at-IsRegistry key s (some p) g ok = ok
pool_at-IsRegistry key s none g ok = record {
  below = λ k p e. ground (arith, get-put key k s.made s.provider_pool, ok.below k p);
  apart = λ j k p e f. ground (
    arith,
    get-put key j s.made s.provider_pool,
    get-put key k s.made s.provider_pool,
    ok.below j p,
    ok.below k p,
    ok.apart j k p,
    eqb_iff key j,
    eqb_iff key k,
  );
}

-- CreateProxyPool keeps the pools of different fetchers apart.
pub create_proxy_pool-IsRegistry :
    (c : ProxyConfig) (s : Pools) → IsRegistry s → IsRegistry (create_proxy_pool c s).0
unfolding create_proxy_pool built
create_proxy_pool-IsRegistry c s ok =
    elim (Option-cases (Dict.get c.provider s.provider_builders)) [
      | inl g ↦ rw g ok
      | inr (builder, g) ↦ rw g (pool_at-IsRegistry (builder c) s _ refl ok)
    ]
