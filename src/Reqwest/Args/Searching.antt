-- ===== src/Reqwest/Args/Searching.antt =====
-- Where an argument stands: the bytes behind its `key=`, found by structure.
use openscraper_framework.Prelude.{
  true, false, Bool-cases, Option, none, some, List, [], ◌∷◌, ◌++◌, length, drop, ◌==◌, All,
  if◌then◌else◌, ◌≡◌, ◌≢◌, refl, ap, arith, inl, inr, ◌⊎◌,
}
use openscraper_framework.Prelude.Text.{Text}
use openscraper_framework.Reqwest.Args.{amp, has_prefix}

-- A text without `&`.
abbrev pub NoAmp : Text → Type 0
NoAmp s = All (λ c. c ≢ amp) s

-- What stands behind a prefix.
unfoldable pub strip : Text → Text → Option Text
strip [] s = some s
strip (d ∷ p) [] = none
strip (d ∷ p) (c ∷ s) = if c == d then strip p s else none

abbrev pub or_else : Option Text → Option Text → Option Text
or_else none later = later
or_else (some r) later = some r

-- What stands behind the first `&` that `p` follows.
unfoldable pub after_amp : Text → Text → Option Text
unfolding strip
after_amp p [] = none
after_amp p (c ∷ s) = if c == amp then or_else (strip p s) (after_amp p s) else after_amp p s

unfoldable pub found : Text → Text → Option Text
unfolding strip after_amp
found p s = or_else (strip p s) (after_amp p s)

-- The bytes up to the next `&`.
unfoldable pub until_amp : Text → Text
until_amp [] = []
until_amp (c ∷ s) = if c == amp then [] else c ∷ until_amp s

unfoldable pub from_amp : Text → Text
from_amp [] = []
from_amp (c ∷ s) = if c == amp then c ∷ s else from_amp s

pub strip-has_prefix :
    (p s : Text)
    → ((has_prefix s p ≡ true)
        × (strip p s ≡ some (drop (length p) s))
        × (s ≡ p ++ drop (length p) s))
      ⊎ ((has_prefix s p ≡ false) × (strip p s ≡ none))
unfolding strip has_prefix
strip-has_prefix [] s = inl (refl, refl, refl)
strip-has_prefix (d ∷ p) [] = inr (refl, refl)
strip-has_prefix (d ∷ p) (c ∷ s) = elim (Bool-cases (c == d)) [
  | inl t ↦ elim (strip-has_prefix p s) [
    | inl (a, b, e) ↦
        let same : c ≡ d = ground arith in inl (rw t a, rw t b, rw same (ap (λ l. d ∷ l) e))
    | inr (a, b) ↦ inr (rw t a, rw t b)
  ]
  | inr t ↦ inr (rw t, rw t)
]

-- The segments between the `&`, behind the first one.
unfoldable pub tail_segments : Text → List Text
unfolding until_amp
tail_segments [] = []
tail_segments (c ∷ s) = if c == amp then until_amp s ∷ tail_segments s else tail_segments s

unfoldable pub segments : Text → List Text
unfolding until_amp tail_segments
segments s = until_amp s ∷ tail_segments s

-- The value of the first segment that `p` begins.
unfoldable pub first : Text → List Text → Option Text
unfolding strip
first p [] = none
first p (g ∷ gs) = or_else (strip p g) (first p gs)

abbrev pub put_at : Text → Text → Text → List Text → List Text → Option Text → List Text
put_at p v g gs later none = g ∷ later
put_at p v g gs later (some r) = (p ++ v) ∷ gs

-- The segments with the value of the first one that `p` begins replaced.
unfoldable pub put_in : Text → Text → List Text → List Text
unfolding strip
put_in p v [] = []
put_in p v (g ∷ gs) = put_at p v g gs (put_in p v gs) (strip p g)

unfoldable pub map_until : Option Text → Option Text
unfolding until_amp
map_until none = none
map_until (some s) = some (until_amp s)

pub strip-until_amp : (p s : Text) → NoAmp p → map_until (strip p s) ≡ strip p (until_amp s)
unfolding strip until_amp map_until
strip-until_amp [] s h = refl
strip-until_amp (d ∷ p) [] h = refl
strip-until_amp (d ∷ p) (c ∷ s) h = ground (arith, strip-until_amp p s h.1)

pub after_amp-segments :
    (p s : Text) → NoAmp p → map_until (after_amp p s) ≡ first p (tail_segments s)
unfolding after_amp tail_segments first map_until
after_amp-segments p [] h = refl
after_amp-segments p (c ∷ s) h = ground (arith, after_amp-segments p s h, strip-until_amp p s h)
