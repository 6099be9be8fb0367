-- ===== src/ProxyPool/Memory.antt =====
-- What the map of a pool remembers about the earlier uses, also after the old entries are gone.
use openscraper_framework.Prelude.{
  ℕ, ◌+◌, ◌≤◌, true, Bool-cases, none, some, List, [], ◌∷◌, All, ◌≡◌, refl, arith, inl, inr, ◌⊎◌,
}
use openscraper_framework.Prelude.Int.{pos, sub_ℕ, ltb_ℤ}
use openscraper_framework.Prelude.Text.{Text, eqb, eqb_iff}
use openscraper_framework.Prelude.Dict
use openscraper_framework.Prelude.Dict.{Dict, get-put, put-IsUnique}
use openscraper_framework.ProxyPool.{recent}

is_old : (now ts : ℕ) → ltb_ℤ (pos 10800) (sub_ℕ now ts) ≡ true → ts + 10800 ≤ now
is_old now ts e = ground arith

-- An entry that survives is the one that was there; one that goes is more than three hours old.
get-recent :
    (k : Text) (now : ℕ) (m : Dict ℕ)
    → Dict.IsUnique m
    → (Dict.get k (recent now m) ≡ Dict.get k m)
      ⊎ ((ts : ℕ) × (Dict.get k m ≡ some ts)
          × (ts + 10800 ≤ now)
          × (Dict.get k (recent now m) ≡ none))
unfolding recent Dict.get
get-recent k now [] u = inl refl
get-recent k now ((j, ts) ∷ m) u = elim (Bool-cases (ltb_ℤ (pos 10800) (sub_ℕ now ts))) [
  | inl old ↦ elim (Bool-cases (eqb j k)) [
    | inl t ↦
        let gone : Dict.get k m ≡ none = rw (← (eqb_iff j k).0 t) u.0 in
        rw (old, t) (inr (ts, refl, is_old now ts old, ground (arith, get-recent k now m u.1)))
    | inr t ↦ rw (old, t) (get-recent k now m u.1)
  ]
  | inr new ↦ elim (Bool-cases (eqb j k)) [
    | inl t ↦ rw (new, t) (inl refl)
    | inr t ↦ rw (new, t) (get-recent k now m u.1)
  ]
]

pub recent-IsUnique : (now : ℕ) (m : Dict ℕ) → Dict.IsUnique m → Dict.IsUnique (recent now m)
unfolding recent
recent-IsUnique now [] u = tt
recent-IsUnique now ((j, ts) ∷ m) u =
    ground (arith, get-recent j now m u.1, recent-IsUnique now m u.1)

-- The uses so far, the last one first: a host with the second at which it was taken.
abbrev pub Uses : Type 0
Uses = List (Text × ℕ)

-- A use is remembered at its host, at its second or a later one, or is `sec` seconds past.
abbrev pub Remembered : ℕ → ℕ → Dict ℕ → Text → ℕ → Type 0
Remembered sec clock d host t =
    ((ts : ℕ) × (Dict.get host d ≡ some ts) × (t ≤ ts)) ⊎ (t + sec ≤ clock)

abbrev pub AllRemembered : ℕ → ℕ → Dict ℕ → Uses → Type 0
AllRemembered sec clock d uses = All (λ (host, t). (t ≤ clock) × Remembered sec clock d host t) uses

pub Remembered-recent :
    (sec clock now : ℕ) (d : Dict ℕ) (host : Text) (t : ℕ)
    → sec ≤ 10800
    → Dict.IsUnique d
    → clock ≤ now
    → Remembered sec clock d host t
    → Remembered sec now (recent now d) host t
Remembered-recent sec clock now d host t s u l (inr e) = inr (omega arith)
Remembered-recent sec clock now d host t s u l (inl (ts, e, q)) = elim (get-recent host now d u) [
  | inl same ↦ inl (ts, rw same e, q)
  | inr (ts', e', old, gone) ↦ inr (ground arith)
]

pub Remembered-put :
    (sec now : ℕ) (d : Dict ℕ) (ip host : Text) (t : ℕ)
    → t ≤ now
    → Remembered sec now d host t
    → Remembered sec now (Dict.put ip now d) host t
Remembered-put sec now d ip host t l (inr e) = inr e
Remembered-put sec now d ip host t l (inl (ts, e, q)) = elim (Bool-cases (eqb ip host)) [
  | inl same ↦ inl (now, rw (get-put ip host, same), l)
  | inr other ↦ inl (ts, rw (get-put ip host, other) e, q)
]

pub all_later :
    (sec clock now : ℕ) (d d' : Dict ℕ) (uses : Uses)
    → clock ≤ now
    → ((host : Text) (t : ℕ)
        → t ≤ now
        → Remembered sec clock d host t
        → Remembered sec now d' host t)
    → AllRemembered sec clock d uses
    → AllRemembered sec now d' uses
all_later sec clock now d d' [] l f r = tt
all_later sec clock now d d' ((host, t) ∷ uses) l f r = (
  (omega (arith, r.0.0), f host t (omega (arith, r.0.0)) r.0.1),
  all_later sec clock now d d' uses l f r.1,
)

pub Remembered-later :
    (sec clock now : ℕ) (d : Dict ℕ) (host : Text) (t : ℕ)
    → clock ≤ now
    → Remembered sec clock d host t
    → Remembered sec now d host t
Remembered-later sec clock now d host t l (inl e) = inl e
Remembered-later sec clock now d host t l (inr e) = inr (omega arith)
