-- ===== src/Reqwest/Args/Scanning.antt =====
-- argsScanner: what it visits, and that a read agrees with it.
use openscraper_framework.Prelude.{
  ℕ, zero, suc, ◌+◌, ◌≤◌, Bool, true, false, not, ◌&&◌, Bool-cases, Option, none, some, List, [],
  ◌∷◌, ◌++◌, length, drop, leb, ◌<◌, ◌==◌, if◌then◌else◌, ◌≡◌, refl, sym, ap, ◌∙◌, arith, inl, inr,
}
use mathlib.Core.List.{append_assoc}
use openscraper_framework.Prelude.Text.{Text, eqb}
use openscraper_framework.Reqwest.Args.{
  amp, equals, key_part, panics, next_value, find_key, slice, get_at, get_key_value, ArgsKv,
  scan_pair, scan_pairs, visit_all_query_arg,
}
use openscraper_framework.Reqwest.Args.Searching.{
  NoAmp, strip, or_else, until_amp, from_amp, segments, tail_segments, first,
}
use openscraper_framework.Reqwest.Args.Writing.{arg_of, get_key_value-segments, strip_nil}
use openscraper_framework.Reqwest.Args.Places.{append_nil, strip-append}
use openscraper_framework.Reqwest.Args.Setting.{NoEquals}

-- The bytes behind the next `&`.
behind : Text → Text
unfolding from_amp
behind s = drop 1 (from_amp s)

scan_pair-until_amp :
    (key : Option Text) (part s : Text)
    → scan_pair key part s ≡ ((scan_pair key part (until_amp s)).0, behind s)
unfolding scan_pair until_amp behind
scan_pair-until_amp none part [] = refl
scan_pair-until_amp (some key) part [] = refl
scan_pair-until_amp none part (c ∷ s) =
    ground
      (arith, scan_pair-until_amp none (part ++ c ∷ []) s, scan_pair-until_amp (some part) [] s)
scan_pair-until_amp (some key) part (c ∷ s) =
    ground (arith, scan_pair-until_amp (some key) (part ++ c ∷ []) s)

behind-segments :
    (key s : Text)
    → first (key_part key) (tail_segments s) ≡ first (key_part key) (segments (behind s))
unfolding behind segments tail_segments until_amp first
behind-segments key [] = rw (strip_nil key)
behind-segments key (c ∷ s) = ground (arith, behind-segments key s)

length-behind : (s : Text) → length (behind s) ≤ length s
unfolding behind
length-behind [] = omega arith
length-behind (c ∷ s) = ground (arith, length-behind s)

length-behind_cons : (c : ℕ) (s : Text) → length (behind (c ∷ s)) ≤ length s
unfolding behind
length-behind_cons c s = ground (arith, length-behind s)

-- The two sides of the first `=`.
until_equals : Text → Text
until_equals [] = []
until_equals (c ∷ s) = if c == equals then [] else c ∷ until_equals s

behind_equals : Text → Text
behind_equals [] = []
behind_equals (c ∷ s) = if c == equals then s else behind_equals s

lacks_equals : Text → Bool
lacks_equals [] = true
lacks_equals (c ∷ s) = if c == equals then false else lacks_equals s

abbrev pair_of : Text → Text → ArgsKv
pair_of part s = record {
  key = part ++ until_equals s;
  value = behind_equals s;
  no_value = lacks_equals s;
}

scan_value :
    (key part s : Text)
    → NoAmp s
    → (scan_pair (some key) part s).0 ≡ record { key = key; value = part ++ s; no_value = false }
unfolding scan_pair
scan_value key part [] h = rw (append_nil part)
scan_value key part (c ∷ s) h =
    ground (arith, h.0, scan_value key (part ++ c ∷ []) s h.1, append_assoc part (c ∷ []) s)

scan_segment : (part s : Text) → NoAmp s → (scan_pair none part s).0 ≡ pair_of part s
unfolding scan_pair until_equals behind_equals lacks_equals
scan_segment part [] h = rw (append_nil part)
scan_segment part (c ∷ s) h = ground (
  arith,
  h.0,
  scan_segment (part ++ c ∷ []) s h.1,
  scan_value part [] s h.1,
  append_assoc part (c ∷ []) (until_equals s),
  append_nil part,
)

-- The value of the first pair that a scan visits under a key.
value_at : Text → ArgsKv → Option Text
value_at key kv = if eqb kv.key key && not kv.no_value then some kv.value else none

pub value_of : Text → List ArgsKv → Option Text
unfolding value_at
value_of key [] = none
value_of key (kv ∷ kvs) = or_else (value_at key kv) (value_of key kvs)

value_at-strip :
    (key s : Text) → NoEquals key → value_at key (pair_of [] s) ≡ strip (key_part key) s
unfolding value_at until_equals behind_equals lacks_equals strip eqb
value_at-strip [] [] h = refl
value_at-strip [] (c ∷ s) h = ground arith
value_at-strip (d ∷ key) [] h = refl
value_at-strip (d ∷ key) (c ∷ s) h = ground (arith, h.0, value_at-strip key s h.1)

until_amp-NoAmp : (s : Text) → NoAmp (until_amp s)
unfolding until_amp
until_amp-NoAmp [] = tt
until_amp-NoAmp (c ∷ s) = elim (Bool-cases (c == amp)) [
  | inl t ↦ rw t tt
  | inr t ↦ rw t (ground arith, until_amp-NoAmp s)
]

module _ (key : Text) (h : NoEquals key) where
  scan_pairs-step :
      (fuel c : ℕ) (s : Text)
      → value_of key (scan_pairs (suc fuel) (c ∷ s))
        ≡ or_else
            (value_at key (pair_of [] (until_amp (c ∷ s))))
            (value_of key (scan_pairs fuel (behind (c ∷ s))))
  unfolding scan_pairs value_of
  scan_pairs-step fuel c s = rw (
    scan_pair-until_amp none [] (c ∷ s),
    scan_segment [] (until_amp (c ∷ s)) (until_amp-NoAmp (c ∷ s)),
  )

  -- The fuel is enough where it is no less than the length.
  scan_pairs-segments :
      (fuel : ℕ) (s : Text)
      → length s ≤ fuel
      → value_of key (scan_pairs fuel s) ≡ first (key_part key) (segments s)
  unfolding first segments
  scan_pairs-segments zero [] n =
      unfold scan_pairs value_of until_amp tail_segments in rw (strip_nil key)
  scan_pairs-segments zero (c ∷ s) n = absurd (omega arith)
  scan_pairs-segments (suc fuel) [] n =
      unfold scan_pairs value_of until_amp tail_segments in rw (strip_nil key)
  scan_pairs-segments (suc fuel) (c ∷ s) n =
      scan_pairs-step fuel c s
      ∙ ap (λ o. or_else o (value_of key (scan_pairs fuel (behind (c ∷ s)))))
          (value_at-strip key (until_amp (c ∷ s)) h)
      ∙ ap (or_else (strip (key_part key) (until_amp (c ∷ s)))) (
          scan_pairs-segments fuel (behind (c ∷ s)) (omega (arith, length-behind_cons c s))
          ∙ sym (behind-segments key (c ∷ s)))

-- A read by getKeyValue, which searches the bytes for `key=`, returns the value of the first pair with
-- that key that the scanner visits as a pair with a value, and nil where it visits none, for every query
-- string, where the key holds neither `&` nor `=`.
pub get_key_value-visit_all_query_arg :
    (qs key : Text)
    → NoAmp key
    → NoEquals key
    → get_key_value qs key ≡ arg_of (value_of key (visit_all_query_arg qs))
unfolding visit_all_query_arg
get_key_value-visit_all_query_arg qs key k h =
    get_key_value-segments key qs k
    ∙ ap arg_of (sym (scan_pairs-segments key h (length qs) qs (omega arith)))

next_value-lt : (key r : Text) → next_value key < length key → next_value (key ++ r) < length key
unfolding next_value
next_value-lt [] r h = elim h [ ]
next_value-lt (c ∷ key) r h = ground (arith, next_value-lt key r)

-- A key that holds an `&` is no such key: where the query string begins with it and `=`, a read panics
-- on a slice whose end stands before its start.
pub get_key_value_panics :
    (key r : Text) → next_value key < length key → get_key_value (key_part key ++ r) key ≡ panics
unfolding get_key_value get_at slice find_key
get_key_value_panics key r h =
    let e = append_assoc key (equals ∷ []) r in
    let n = next_value-lt key (equals ∷ r) h in
    let t : leb (0 + length key + 1) (0 + next_value (key ++ equals ∷ r)) ≡ false = ground arith in
    rw ((strip-append (key_part key) r).1, e, t)
