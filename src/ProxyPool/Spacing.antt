-- ===== src/ProxyPool/Spacing.antt =====
-- How far apart the uses of one proxy are.
use openscraper_framework.Prelude.{
  ℕ, ◌+◌, ◌≤◌, false, Bool-cases, some, List, [], ◌∷◌, All, length, ltb, ◌≡◌, refl, arith, inl, inr,
  if◌then◌else◌,
}
use openscraper_framework.Prelude.Int.{ℤ, pos, sub_ℕ, ltb_ℤ}
use openscraper_framework.Prelude.Text.{Text, eqb_refl}
use openscraper_framework.Prelude.Dict
use openscraper_framework.Prelude.Dict.{Dict, get-put, put-IsUnique}
use openscraper_framework.ProxyPool.{ClassicPool, new_classic_pool, recent, used_lately, filter}
use openscraper_framework.ProxyPool.Memory.{
  Uses, Remembered, AllRemembered, recent-IsUnique, Remembered-recent, Remembered-put, all_later,
  Remembered-later,
}

-- A use at `now` of a host comes at least `sec` seconds behind every earlier use of it.
abbrev pub Apart : ℕ → Text → ℕ → Uses → Type 0
Apart sec ip now uses = All (λ (host, t). host ≡ ip → t + sec ≤ now) uses

abbrev pub Spaced : ℕ → Uses → Type 0
Spaced sec [] = Unit
Spaced sec ((ip, now) ∷ uses) = Apart sec ip now uses × Spaced sec uses

-- The calls of filter, in their order, each with its second.
unfoldable pub filter_all : ClassicPool → Uses → List (Text × ℕ) → ClassicPool × Uses
filter_all m uses [] = (m, uses)
filter_all m uses ((ip, now) ∷ calls) =
    let (m', ok) = filter m ip now in filter_all m' (if ok then (ip, now) ∷ uses else uses) calls

-- The clock does not go back.
abbrev pub Forward : ℕ → List (Text × ℕ) → Type 0
Forward clock [] = Unit
Forward clock ((ip, now) ∷ calls) = (clock ≤ now) × Forward now calls

not_lately : (now ts sec : ℕ) → ltb_ℤ (sub_ℕ now ts) (pos sec) ≡ false → ts + sec ≤ now
not_lately now ts sec e = ground arith

-- A host that was not used lately is `sec` seconds behind its earlier uses.
apart_one :
    (sec clock now : ℕ) (m : ClassicPool) (host : Text) (t : ℕ)
    → m.filter_proxy_sec ≡ pos sec
    → clock ≤ now
    → used_lately m now (Dict.get host m.time_filter) ≡ false
    → Remembered sec clock m.time_filter host t
    → t + sec ≤ now
apart_one sec clock now m host t s l e (inr past) = omega arith
apart_one sec clock now m host t s l e (inl (ts, g, q)) =
    let late : used_lately m now (some ts) ≡ false = rw g at e in
    omega (arith, not_lately now ts sec (rw s at late))

apart :
    (sec clock now : ℕ) (m : ClassicPool) (ip : Text) (uses : Uses)
    → m.filter_proxy_sec ≡ pos sec
    → clock ≤ now
    → used_lately m now (Dict.get ip m.time_filter) ≡ false
    → AllRemembered sec clock m.time_filter uses
    → Apart sec ip now uses
apart sec clock now m ip [] s l e r = tt
apart sec clock now m ip ((host, t) ∷ uses) s l e r = (
  λ same. apart_one sec clock now m host t s l (rw same e) r.0.1,
  apart sec clock now m ip uses s l e r.1,
)

-- What holds between two calls of filter, at the second of the first.
record Kept (sec clock : ℕ) (m : ClassicPool) (uses : Uses) : Type 0 where
  own_sec : m.filter_proxy_sec ≡ pos sec
  unique : Dict.IsUnique m.time_filter
  remembered : AllRemembered sec clock m.time_filter uses
  spaced : Spaced sec uses

-- A use is put down over a map that remembers the earlier ones.
taken-Kept :
    (sec clock now : ℕ) (m : ClassicPool) (uses : Uses) (d : Dict ℕ) (ip : Text)
    → clock ≤ now
    → Kept sec clock m uses
    → Dict.IsUnique d
    → ((host : Text) (t : ℕ)
        → Remembered sec clock m.time_filter host t
        → Remembered sec now d host t)
    → used_lately m now (Dict.get ip m.time_filter) ≡ false
    → Kept sec now (record m { time_filter = Dict.put ip now d }) ((ip, now) ∷ uses)
taken-Kept sec clock now m uses d ip l k u f e = record {
  own_sec = k.own_sec;
  unique = put-IsUnique ip now d u;
  remembered = (
    (omega arith, inl (now, rw (get-put ip ip, eqb_refl ip), omega arith)),
    all_later sec clock now m.time_filter (Dict.put ip now d) uses l
        (λ host t q r. Remembered-put sec now d ip host t q (f host t r)) k.remembered,
  );
  spaced = (apart sec clock now m ip uses k.own_sec l e k.remembered, k.spaced);
}

filter-Kept :
    (sec clock now : ℕ) (m : ClassicPool) (uses : Uses) (ip : Text)
    → sec ≤ 10800
    → clock ≤ now
    → Kept sec clock m uses
    → Kept sec now (filter m ip now).0 (if (filter m ip now).1 then (ip, now) ∷ uses else uses)
unfolding filter
filter-Kept sec clock now m uses ip s l k =
    elim (Bool-cases (used_lately m now (Dict.get ip m.time_filter))) [
      | inl e ↦ rw e (record {
        own_sec = k.own_sec;
        unique = k.unique;
        remembered =
            all_later sec clock now m.time_filter m.time_filter uses l
              (λ host t q r. Remembered-later sec clock now m.time_filter host t l r) k.remembered;
        spaced = k.spaced;
      })
      | inr e ↦ elim (Bool-cases (ltb 30000 (length m.time_filter))) [
        | inl many ↦
            rw (e, many)
              (taken-Kept sec clock now m uses (recent now m.time_filter) ip l k
                (recent-IsUnique now m.time_filter k.unique)
                (λ host t r. Remembered-recent sec clock now m.time_filter host t s k.unique l r) e)
        | inr few ↦
            rw (e, few)
              (taken-Kept sec clock now m uses m.time_filter ip l k k.unique
                (λ host t r. Remembered-later sec clock now m.time_filter host t l r) e)
      ]
    ]

filter_all-Kept :
    (sec clock : ℕ) (m : ClassicPool) (uses : Uses) (calls : List (Text × ℕ))
    → sec ≤ 10800
    → Forward clock calls
    → Kept sec clock m uses
    → Spaced sec (filter_all m uses calls).1
unfolding filter_all
filter_all-Kept sec clock m uses [] s f k = k.spaced
filter_all-Kept sec clock m uses ((ip, now) ∷ calls) s f k =
    filter_all-Kept sec now (filter m ip now).0 _ calls s f.1
      (filter-Kept sec clock now m uses ip s f.0 k)

-- Over any calls of filter on a new pool, by a clock that does not go back, two uses of one host are
-- at least filterProxySec seconds apart, also when the map is cleaned up in between; for at most
-- three hours.
pub filter_all-Spaced :
    (drop_point timeout : ℤ) (sec : ℕ) (calls : List (Text × ℕ))
    → sec ≤ 10800
    → Forward 0 calls
    → Spaced sec (filter_all (new_classic_pool drop_point (pos sec) timeout) [] calls).1
unfolding new_classic_pool
filter_all-Spaced drop_point timeout sec calls s f =
    filter_all-Kept sec 0 (new_classic_pool drop_point (pos sec) timeout) [] calls s f
      (record { own_sec = refl; unique = tt; remembered = tt; spaced = tt })
