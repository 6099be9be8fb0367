-- ===== src/Reqwest/Args/Setting.antt =====
-- setKeyValue: what the reads return behind a write.
use openscraper_framework.Prelude.{
  ℕ, Bool-cases, Option, none, some, List, [], ◌∷◌, ◌++◌, length, drop, ◌==◌, All, ◌≡◌, ◌≢◌, refl,
  sym, ap, ◌∙◌, arith, inl, inr,
}
use mathlib.Core.List.{append_assoc}
use openscraper_framework.Prelude.Text.{Text}
use openscraper_framework.Reqwest.Args.{
  amp, equals, key_part, next_value, find_key, trim, replace_value, appended, set_at, set_key_value,
  value, get_key_value,
}
use openscraper_framework.Reqwest.Args.Searching.{
  NoAmp, strip, or_else, until_amp, segments, tail_segments, first, put_in, map_until,
  strip-has_prefix,
}
use openscraper_framework.Reqwest.Args.Places.{
  written, Spotted, spot, key_part-NoAmp, strip-append, until_amp-append, tail_segments-append,
  append_nil,
}
use openscraper_framework.Reqwest.Args.Writing.{
  found-segments, place_ends, drop-drop, drop-next_value, arg_of, get_key_value-segments,
  trim-segments, appended-segments, strip_nil,
}

-- A text without `=`.
abbrev pub NoEquals : Text → Type 0
NoEquals s = All (λ c. c ≢ equals) s

first-append :
    (p : Text) (gs hs : List Text) → first p (gs ++ hs) ≡ or_else (first p gs) (first p hs)
unfolding first
first-append p [] hs = refl
first-append p (g ∷ gs) hs = ground (arith, first-append p gs hs)

first-put_in :
    (p v r : Text) (gs : List Text) → first p gs ≡ some r → first p (put_in p v gs) ≡ some v
unfolding first put_in
first-put_in p v r [] e = cc
first-put_in p v r (g ∷ gs) e = ground (arith, first-put_in p v r gs, (strip-append p v).0)

-- A write under one key leaves a segment of another key alone.
strip_apart :
    (k k' r : Text)
    → NoEquals k
    → NoEquals k'
    → k ≢ k'
    → strip (key_part k') (key_part k ++ r) ≡ none
unfolding strip
strip_apart [] [] r h h' e = absurd (e refl)
strip_apart [] (d ∷ k') r h h' e = ground (arith, h'.0)
strip_apart (c ∷ k) [] r h h' e = ground (arith, h.0)
strip_apart (c ∷ k) (d ∷ k') r h h' e = elim (Bool-cases (c == d)) [
  | inl t ↦
      let same : c ≡ d = ground arith in rw t (strip_apart k k' r h.1 h'.1 (λ q. e (rw (same, q))))
  | inr t ↦ rw t
]

first-put_in_apart :
    (k k' v : Text) (gs : List Text)
    → NoEquals k
    → NoEquals k'
    → k ≢ k'
    → first (key_part k') (put_in (key_part k) v gs) ≡ first (key_part k') gs
unfolding first put_in
first-put_in_apart k k' v [] h h' e = refl
first-put_in_apart k k' v (g ∷ gs) h h' e = elim (strip-has_prefix (key_part k) g) [
  | inl (_, b, s) ↦
      let n = length (key_part k) in
      let x : strip (key_part k') g ≡ none = rw s (strip_apart k k' (drop n g) h h' e) in
      rw (b, x, strip_apart k k' v h h' e)
  | inr (_, b) ↦ rw (b, first-put_in_apart k k' v gs h h' e)
]

or_else-none : (o : Option Text) → or_else o none ≡ o
or_else-none none = refl
or_else-none (some r) = refl

module _ (key v : Text) (k : NoAmp key) (hv : NoAmp v) where
  pair_segments : segments (key_part key ++ v) ≡ (key_part key ++ v) ∷ []
  unfolding segments until_amp tail_segments
  pair_segments =
      let h = key_part-NoAmp key k in
      let a =
        until_amp-append (key_part key) v h
        ∙ ap (λ l. key_part key ++ l)
            (ap until_amp (sym (append_nil v)) ∙ until_amp-append v [] hv ∙ append_nil v) in
      let b =
        tail_segments-append (key_part key) v h
        ∙ ap tail_segments (sym (append_nil v))
        ∙ tail_segments-append v [] hv in
      rw (a, b)

  set_at-written :
      (s : Text) (at n : ℕ) → Spotted key s at n → set_at s key v (some at) ≡ written n v s
  unfolding set_at replace_value written
  set_at-written s at n f =
      let (a, b) = place_ends key s k at n f in
      rw (a, b, drop-drop n (next_value (drop n s)) s, drop-next_value (drop n s))

  -- What the first segment behind `p` is after a value is added at the end.
  appended-first :
      (s : Text) (p : Text)
      → strip p [] ≡ none
      → first p (segments (appended s key v))
        ≡ or_else (first p (segments s)) (strip p (key_part key ++ v))
  unfolding appended first
  appended-first [] p e =
      rw pair_segments (unfold segments until_amp tail_segments in rw e (ground arith))
  appended-first (c ∷ s) p e =
      rw
        (
          append_assoc (c ∷ s) (amp ∷ []) (key_part key ++ v),
          appended-segments (c ∷ s) (key_part key ++ v),
          pair_segments,
          first-append p (segments (c ∷ s)) ((key_part key ++ v) ∷ []),
        )
        (unfold first in
          ap (or_else (first p (segments (c ∷ s)))) (or_else-none (strip p (key_part key ++ v))))

  -- The first segment of a key, behind a write: where findKey finds the key, and where it does not.
  module _ (s : Text) where
    set_at-first : first (key_part key) (segments (set_at s key v (find_key s key))) ≡ some v
    unfolding set_at map_until
    set_at-first = elim (spot key s k) [
      | inl (at, n, f) ↦
          let e = found-segments (key_part key) s (key_part-NoAmp key k) in
          rw (f.index, set_at-written s at n f, f.write v hv)
            (first-put_in (key_part key) v (until_amp (drop n s)) (segments s)
              (sym e ∙ ap map_until f.rest))
      | inr (a, b) ↦
          let e = found-segments (key_part key) s (key_part-NoAmp key k) in
          rw (
            a,
            appended-first s (key_part key) (strip_nil key),
            ← e,
            b,
            (strip-append (key_part key) v).0,
          )
    ]

    set_at-first_apart :
        (k' : Text)
        → NoEquals key
        → NoEquals k'
        → key ≢ k'
        → first (key_part k') (segments (set_at s key v (find_key s key)))
          ≡ first (key_part k') (segments s)
    unfolding set_at
    set_at-first_apart k' h h' e = elim (spot key s k) [
      | inl (at, n, f) ↦
          rw (f.index, set_at-written s at n f, f.write v hv)
            (first-put_in_apart key k' v (segments s) h h' e)
      | inr (a, b) ↦
          rw (a, appended-first s (key_part k') (strip_nil k'), strip_apart key k' v h h' e)
            (or_else-none (first (key_part k') (segments s)))
    ]

-- Behind a write, a read of the same key returns the value that was written, for every query string,
-- where key and value hold no `&`: it does not panic, and no earlier argument is found in its place.
pub get_key_value-set_key_value :
    (qs key v : Text) → NoAmp key → NoAmp v → get_key_value (set_key_value qs key v) key ≡ value v
unfolding set_key_value
get_key_value-set_key_value qs key v k hv =
    get_key_value-segments key (set_key_value qs key v) k
    ∙ ap arg_of (set_at-first key v k hv (trim qs))

-- A write leaves what a read of any other key returns as it was, nil included, where neither key holds
-- `&` or `=` and the value holds no `&`, though the write trims the `&` at the ends of the string.
pub get_key_value-set_key_value_apart :
    (qs key v other : Text)
    → NoAmp key
    → NoEquals key
    → NoAmp other
    → NoEquals other
    → NoAmp v
    → key ≢ other
    → get_key_value (set_key_value qs key v) other ≡ get_key_value qs other
unfolding set_key_value
get_key_value-set_key_value_apart qs key v other k h k' h' hv e =
    get_key_value-segments other (set_key_value qs key v) k'
    ∙ ap arg_of (set_at-first_apart key v k hv (trim qs) other h h' e ∙ trim-segments other qs)
    ∙ sym (get_key_value-segments other qs k')
