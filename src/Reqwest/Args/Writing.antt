-- ===== src/Reqwest/Args/Writing.antt =====
-- Reading an argument, and what a write does to the reads.
use openscraper_framework.Prelude.{
  ℕ, zero, suc, ◌+◌, true, Option, none, some, [], ◌∷◌, ◌++◌, length, take, drop, leb, ◌≡◌, refl,
  ap, ◌∙◌, arith, inl, inr, length-append,
}
use openscraper_framework.Prelude.Text.{Text}
use openscraper_framework.Reqwest.Args.{
  amp, equals, key_part, next_value, trim, trim_left, trim_right, Arg, value, nil, slice, get_at,
  get_key_value,
}
use openscraper_framework.Reqwest.Args.Searching.{
  NoAmp, strip, or_else, found, until_amp, from_amp, segments, tail_segments, first, map_until,
  strip-until_amp, after_amp-segments,
}
use openscraper_framework.Reqwest.Args.Places.{Spotted, spot, key_part-NoAmp}

pub found-segments : (p s : Text) → NoAmp p → map_until (found p s) ≡ first p (segments s)
unfolding found segments first map_until
found-segments p s h = ground (arith, strip-until_amp p s h, after_amp-segments p s h)

take-next_value : (s : Text) → take (next_value s) s ≡ until_amp s
unfolding next_value until_amp
take-next_value [] = refl
take-next_value (c ∷ s) = ground (arith, take-next_value s)

pub drop-next_value : (s : Text) → drop (next_value s) s ≡ from_amp s
unfolding next_value from_amp
drop-next_value [] = refl
drop-next_value (c ∷ s) = ground (arith, drop-next_value s)

take_nil : (n : ℕ) → take {A = ℕ} n [] ≡ []
take_nil zero = refl
take_nil (suc n) = refl

drop_nil : (n : ℕ) → drop {A = ℕ} n [] ≡ []
drop_nil zero = refl
drop_nil (suc n) = refl

drop-take : (n m : ℕ) (s : Text) → drop n (take (n + m) s) ≡ take m (drop n s)
drop-take zero m s = rw (let e : zero + m ≡ m = omega arith in e)
drop-take (suc n) m [] = rw (take_nil (suc n + m), take_nil m)
drop-take (suc n) m (c ∷ s) =
    rw (let e : suc n + m ≡ suc (n + m) = omega arith in e) (drop-take n m s)

pub drop-drop : (n m : ℕ) (s : Text) → drop (n + m) s ≡ drop m (drop n s)
drop-drop zero m s = rw (let e : zero + m ≡ m = omega arith in e)
drop-drop (suc n) m [] = rw (drop_nil (suc n + m), drop_nil m)
drop-drop (suc n) m (c ∷ s) =
    rw (let e : suc n + m ≡ suc (n + m) = omega arith in e) (drop-drop n m s)

next_value-append : (p s : Text) → NoAmp p → next_value (p ++ s) ≡ length p + next_value s
unfolding next_value
next_value-append [] s h = omega arith
next_value-append (c ∷ p) s h = ground (arith, next_value-append p s h.1)

abbrev pub arg_of : Option Text → Arg
arg_of none = nil
arg_of (some r) = value r

module _ (key s : Text) (k : NoAmp key) where
  pub place_ends :
      (at n : ℕ)
      → Spotted key s at n
      → (at + length key + 1 ≡ n) × (at + next_value (drop at s) ≡ n + next_value (drop n s))
  place_ends at n f =
      let a = f.behind in
      let b = length-append key (equals ∷ []) in
      let c = next_value-append (key_part key) (drop n s) (key_part-NoAmp key k) in
      let d = ap next_value f.match in (omega arith, omega arith)

  -- A read returns the value of the first segment that `key=` begins, and nil if there is none.
  pub get_key_value-segments : get_key_value s key ≡ arg_of (first (key_part key) (segments s))
  unfolding get_key_value get_at slice map_until
  get_key_value-segments = elim (spot key s k) [
    | inl (at, n, f) ↦
        let (a, b) = place_ends at n f in
        let t : leb n (n + next_value (drop n s)) ≡ true = ground arith in
        let e = found-segments (key_part key) s (key_part-NoAmp key k) in
        rw (
          f.index,
          a,
          b,
          t,
          drop-take n (next_value (drop n s)) s,
          take-next_value (drop n s),
          ← e,
          f.rest,
        )
    | inr (a, b) ↦ let e = found-segments (key_part key) s (key_part-NoAmp key k) in rw (a, ← e, b)
  ]

-- `key=` stands in front of no empty segment.
pub strip_nil : (key : Text) → strip (key_part key) [] ≡ none
unfolding strip
strip_nil [] = refl
strip_nil (c ∷ key) = refl

trim_left-segments :
    (key s : Text)
    → first (key_part key) (segments (trim_left s)) ≡ first (key_part key) (segments s)
unfolding trim_left segments until_amp tail_segments first
trim_left-segments key [] = refl
trim_left-segments key (c ∷ s) = ground (arith, trim_left-segments key s, strip_nil key)

trim_right-segments :
    (key s : Text)
    → (until_amp (trim_right s) ≡ until_amp s)
      × (first (key_part key) (tail_segments (trim_right s))
          ≡ first (key_part key) (tail_segments s))
unfolding trim_right until_amp tail_segments first
trim_right-segments key [] = (refl, refl)
trim_right-segments key (c ∷ s) = ground (arith, trim_right-segments key s, strip_nil key)

pub trim-segments :
    (key s : Text) → first (key_part key) (segments (trim s)) ≡ first (key_part key) (segments s)
unfolding trim segments first
trim-segments key s =
    let (a, b) = trim_right-segments key (trim_left s) in
    ap (λ o. or_else o (first (key_part key) (tail_segments (trim_right (trim_left s)))))
      (ap (strip (key_part key)) a)
    ∙ ap (or_else (strip (key_part key) (until_amp (trim_left s)))) b
    ∙ trim_left-segments key s

-- The segments after a write at the end.
pub appended-segments : (s t : Text) → segments (s ++ amp ∷ t) ≡ segments s ++ segments t
unfolding segments until_amp tail_segments
appended-segments [] t = refl
appended-segments (c ∷ s) t = ground (arith, appended-segments s t)
