-- ===== src/Reqwest/Args/Places.antt =====
-- Where findKey finds an argument, and what a write there does to the segments.
use openscraper_framework.Prelude.{
  ℕ, suc, ◌+◌, ◌≤◌, true, false, Bool-cases, none, some, List, [], ◌∷◌, ◌++◌, length, take, drop,
  ◌==◌, ◌≡◌, refl, sym, ap, ◌∙◌, arith, inl, inr, ◌⊎◌, length-append, take-append,
}
use openscraper_framework.Prelude.Text.{Text}
use openscraper_framework.Reqwest.Args.{amp, key_part, has_prefix, index_of, find_key}
use openscraper_framework.Reqwest.Args.Searching.{
  NoAmp, strip, after_amp, found, until_amp, from_amp, segments, tail_segments, put_in, map_until,
  strip-has_prefix, strip-until_amp,
}

-- A write over what stands behind the place `n`, up to the next `&`.
unfoldable pub written : ℕ → Text → Text → Text
unfolding from_amp
written n v s = take n s ++ (v ++ from_amp (drop n s))

pub until_amp-append : (p s : Text) → NoAmp p → until_amp (p ++ s) ≡ p ++ until_amp s
unfolding until_amp
until_amp-append [] s h = refl
until_amp-append (c ∷ p) s h = ground (arith, until_amp-append p s h.1)

pub tail_segments-append : (p s : Text) → NoAmp p → tail_segments (p ++ s) ≡ tail_segments s
unfolding tail_segments
tail_segments-append [] s h = refl
tail_segments-append (c ∷ p) s h = ground (arith, tail_segments-append p s h.1)

from_amp-segments :
    (s : Text) → (until_amp (from_amp s) ≡ []) × (tail_segments (from_amp s) ≡ tail_segments s)
unfolding until_amp from_amp tail_segments
from_amp-segments [] = (refl, refl)
from_amp-segments (c ∷ s) = ground (arith, from_amp-segments s)

pub append_nil : (p : Text) → p ++ [] ≡ p
append_nil [] = refl
append_nil (c ∷ p) = ap (λ l. c ∷ l) (append_nil p)

drop-append : (p r : Text) → drop (length p) (p ++ r) ≡ r
drop-append [] r = refl
drop-append (c ∷ p) r = drop-append p r

-- The segments of `p ++ r`, when what stands behind `p` is written over.
written_here :
    (p v r : Text)
    → NoAmp p
    → NoAmp v
    → (until_amp (written (length p) v (p ++ r)) ≡ p ++ v)
      × (tail_segments (written (length p) v (p ++ r)) ≡ tail_segments (p ++ r))
unfolding written
written_here p v r hp hv =
    rw (take-append p r, drop-append p r)
      (
        until_amp-append p (v ++ from_amp r) hp
            ∙ ap (λ l. p ++ l)
                (until_amp-append v (from_amp r) hv
                  ∙ ap (λ l. v ++ l) (from_amp-segments r).0
                  ∙ append_nil v),
        tail_segments-append p (v ++ from_amp r) hp
            ∙ tail_segments-append v (from_amp r) hv
            ∙ (from_amp-segments r).1
            ∙ sym (tail_segments-append p r hp),
      )

-- The index of `&p`, and the place behind it.
pub record Found (p s : Text) (i n : ℕ) : Type 0 where
  pub behind : n ≡ suc (i + length p)
  pub inside : n ≤ length s
  pub index : index_of s (amp ∷ p) ≡ some i
  pub match : drop (suc i) s ≡ p ++ drop n s
  pub rest : after_amp p s ≡ some (drop n s)
  pub write :
      (v : Text)
      → NoAmp v
      → (until_amp (written n v s) ≡ until_amp s)
        × (tail_segments (written n v s) ≡ put_in p v (tail_segments s))

abbrev pub Place : Text → Text → Type 0
Place p s =
    ((i : ℕ) × (n : ℕ) × Found p s i n) ⊎ ((index_of s (amp ∷ p) ≡ none) × (after_amp p s ≡ none))

pub strip-append : (p r : Text) → (strip p (p ++ r) ≡ some r) × (has_prefix (p ++ r) p ≡ true)
unfolding strip has_prefix
strip-append [] r = (refl, refl)
strip-append (c ∷ p) r = ground (arith, strip-append p r)

put_in_here :
    (p v r : Text) (gs : List Text) → NoAmp p → put_in p v (until_amp (p ++ r) ∷ gs) ≡ (p ++ v) ∷ gs
unfolding put_in
put_in_here p v r gs h = rw (until_amp-append p r h, (strip-append p (until_amp r)).0)

place_here : (p r : Text) → NoAmp p → Found p (amp ∷ (p ++ r)) 0 (suc (length p))
unfolding written after_amp index_of has_prefix until_amp tail_segments
place_here p r h = record {
  behind = omega arith;
  inside = omega (arith, length-append p r);
  index = rw (strip-append p r).1;
  match = rw (drop-append p r);
  rest = rw ((strip-append p r).0, drop-append p r);
  write = λ v hv.
      let (a, b) = written_here p v r h hv in
      (refl, rw (a, b, put_in_here p v r (tail_segments (p ++ r)) h));
}

place_later :
    (p s : Text) (c : ℕ) (i n : ℕ)
    → has_prefix (c ∷ s) (amp ∷ p) ≡ false
    → (c ≡ amp → strip p (until_amp s) ≡ none)
    → (c ≡ amp → strip p s ≡ none)
    → Found p s i n
    → Found p (c ∷ s) (suc i) (suc n)
unfolding written after_amp index_of until_amp tail_segments put_in
place_later p s c i n a g g' f = record {
  behind = omega (arith, f.behind);
  inside = omega (arith, f.inside);
  index = rw (a, f.index);
  match = f.match;
  rest = ground (arith, f.rest);
  write = λ v h. ground (arith, f.write v h);
}

pub place : (p s : Text) → NoAmp p → Place p s
unfolding after_amp index_of has_prefix map_until
place p [] h = inr (refl, refl)
place p (c ∷ s) h = elim (Bool-cases (c == amp)) [
  | inl t ↦ elim (strip-has_prefix p s) [
    | inl (a, b, e) ↦
        let same : c ≡ amp = ground arith in
        inl (0, suc (length p), rw (same, e) (place_here p (drop (length p) s) h))
    | inr (a, b) ↦ elim (place p s h) [
      | inl (i, n, f) ↦ inl (
        suc i,
        suc n,
        place_later p s c i n (rw (t, a)) (λ e. sym (strip-until_amp p s h) ∙ ap map_until b)
            (λ e. b) f,
      )
      | inr (f, g) ↦ inr (rw (t, a, f), rw (t, b, g))
    ]
  ]
  | inr t ↦ elim (place p s h) [
    | inl (i, n, f) ↦ inl (
      suc i,
      suc n,
      place_later p s c i n (rw t) (λ e. absurd (ground arith)) (λ e. absurd (ground arith)) f,
    )
    | inr (f, g) ↦ inr (rw (t, f), rw (t, g))
  ]
]

-- The same for findKey, over all segments.
pub record Spotted (key s : Text) (at n : ℕ) : Type 0 where
  pub behind : n ≡ at + length (key_part key)
  pub inside : n ≤ length s
  pub index : find_key s key ≡ some at
  pub match : drop at s ≡ key_part key ++ drop n s
  pub rest : found (key_part key) s ≡ some (drop n s)
  pub write : (v : Text) → NoAmp v → segments (written n v s) ≡ put_in (key_part key) v (segments s)

abbrev pub Spot : Text → Text → Type 0
Spot key s =
    ((at : ℕ) × (n : ℕ) × Spotted key s at n)
    ⊎ ((find_key s key ≡ none) × (found (key_part key) s ≡ none))

pub key_part-NoAmp : (key : Text) → NoAmp key → NoAmp (key_part key)
key_part-NoAmp [] h = (omega arith, tt)
key_part-NoAmp (c ∷ key) h = (h.0, key_part-NoAmp key h.1)

spot_here :
    (key r : Text)
    → NoAmp (key_part key)
    → Spotted key (key_part key ++ r) 0 (length (key_part key))
unfolding find_key written found segments
spot_here key r h = record {
  behind = omega arith;
  inside = omega (arith, length-append (key_part key) r);
  index = rw (strip-append (key_part key) r).1;
  match = rw (drop-append (key_part key) r);
  rest = rw ((strip-append (key_part key) r).0, drop-append (key_part key) r);
  write = λ v hv.
      let (a, b) = written_here (key_part key) v r h hv in
      rw (a, b, put_in_here (key_part key) v r (tail_segments (key_part key ++ r)) h);
}

spot_later :
    (key s : Text) (i n : ℕ)
    → NoAmp (key_part key)
    → has_prefix s (key_part key) ≡ false
    → strip (key_part key) s ≡ none
    → Found (key_part key) s i n
    → Spotted key s (suc i) n
unfolding find_key found segments put_in map_until
spot_later key s i n h a b f = record {
  behind = omega (arith, f.behind);
  inside = f.inside;
  index = rw (a, f.index);
  match = f.match;
  rest = rw (b, f.rest);
  write = λ v hv.
      let (x, y) = f.write v hv in
      let z : strip (key_part key) (until_amp s) ≡ none =
        sym (strip-until_amp (key_part key) s h) ∙ ap map_until b in
      rw (x, y, z);
}

-- Either findKey returns an index, or no segment begins with `key=`.
pub spot : (key s : Text) → NoAmp key → Spot key s
unfolding find_key found
spot key s k =
    let p = key_part key in
    let h = key_part-NoAmp key k in
    elim (strip-has_prefix p s) [
      | inl (a, b, e) ↦ inl (0, length p, rw e (spot_here key (drop (length p) s) h))
      | inr (a, b) ↦ elim (place p s h) [
        | inl (i, n, f) ↦ inl (suc i, n, spot_later key s i n h a b f)
        | inr (f, g) ↦ inr (rw (a, f), rw (b, g))
      ]
    ]
