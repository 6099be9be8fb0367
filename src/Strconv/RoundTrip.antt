-- ===== src/Strconv/RoundTrip.antt =====
-- Parsing the printed text of an integer of a type gives the integer back, with no error.
use openscraper_framework.Prelude.{
  ℕ, zero, suc, ◌<◌, ◌≤◌, ◌+◌, ◌*◌, ◌-◌, ◌/◌, ◌%◌, ◌≡◌, refl, true, Bool-cases, inl, inr, none, [],
  ◌∷◌, ◌++◌, arith, ltb,
}
use openscraper_framework.Prelude.Int.{ℤ, pos, negsuc, InSigned}
use openscraper_framework.Prelude.Text.{Text}
use openscraper_framework.Strconv.{
  parse_uint, parse_int, parse_digits, is_digit, digits, itoa, parse_sign, after_digits, in_range,
}

-- One more digit at the end of a text that parses.
parse_digits-snoc :
    (m a v c : ℕ) (s : Text)
    → parse_digits m a s ≡ (v, none)
    → is_digit c ≡ true
    → v * 10 + (c - b'0') < m
    → parse_digits m a (s ++ c ∷ []) ≡ (v * 10 + (c - b'0'), none)
unfolding parse_digits
parse_digits-snoc m a v c [] h d l = ground arith
parse_digits-snoc m a v c (x ∷ s) h d l =
    ground (arith, parse_digits-snoc m (a * 10 + (x - b'0')) v c s)

parse_digits-digits :
    (m fuel n : ℕ) → n < fuel → n < m → parse_digits m 0 (digits fuel n) ≡ (n, none)
unfolding digits
parse_digits-digits m zero n h l = elim h [ ]
parse_digits-digits m (suc fuel) n h l = elim (Bool-cases (ltb n 10)) [
  | inl small ↦ rw small (unfold parse_digits in ground arith)
  | inr large ↦
      rw
        (
          large,
          parse_digits-snoc m 0 (n / 10) (b'0' + n % 10) (digits fuel (n / 10))
              (parse_digits-digits m fuel (n / 10) (ground arith) (ground arith)) (ground arith)
              (ground arith),
        )
        (ground arith)
]

-- Printed digits are no empty text, and begin with no sign.
data Printed : Text → Type 0 where
  printed : (c : ℕ) (s : Text) → is_digit c ≡ true → Printed (c ∷ s)

Printed-append : {s : Text} (t : Text) → Printed s → Printed (s ++ t)
Printed-append t (printed c s d) = printed c (s ++ t) d

digits-Printed : (fuel n : ℕ) → n < fuel → Printed (digits fuel n)
unfolding digits
digits-Printed zero n h = elim h [ ]
digits-Printed (suc fuel) n h = elim (Bool-cases (ltb n 10)) [
  | inl small ↦ rw small (printed (b'0' + n) [] (ground arith))
  | inr large ↦
      rw large (Printed-append ((b'0' + n % 10) ∷ []) (digits-Printed fuel (n / 10) (ground arith)))
]

parse_int-Printed :
    (m n : ℕ) {s : Text}
    → Printed s
    → parse_digits (m + m) 0 s ≡ (n, none)
    → n < m
    → parse_int m s ≡ (pos n, none)
unfolding parse_int
parse_int-Printed m n (printed c s d) h l = ground arith

parse_uint-Printed : (m : ℕ) {s : Text} → Printed s → parse_uint m s ≡ parse_digits m 0 s
unfolding parse_uint
parse_uint-Printed m (printed c s d) = refl

parse_int-minus :
    (m n : ℕ) (s : Text)
    → parse_uint (m + m) s ≡ (suc n, none)
    → suc n ≤ m
    → parse_int m (b'-' ∷ s) ≡ (negsuc n, none)
unfolding parse_sign after_digits in_range parse_int
parse_int-minus m n s h l = rw h (ground arith)

-- ParseInt inverts Sprintf("%v", z) for every z of the type, the least included.
pub parse_int-itoa : (m : ℕ) (z : ℤ) → InSigned m z → parse_int m (itoa z) ≡ (z, none)
unfolding itoa
parse_int-itoa m (pos n) h =
    parse_int-Printed m n (digits-Printed (suc n) n (omega arith))
      (parse_digits-digits (m + m) (suc n) n (omega arith) (omega arith)) h.1
parse_int-itoa m (negsuc n) h =
    parse_int-minus m n (digits (suc (suc n)) (suc n))
      (rw (parse_uint-Printed (m + m) (digits-Printed (suc (suc n)) (suc n) (omega arith)))
        (parse_digits-digits (m + m) (suc (suc n)) (suc n) (omega arith) (omega arith)))
      h.0

-- ParseUint inverts Sprintf("%v", n) for every n of the type.
pub parse_uint-itoa : (m n : ℕ) → n < m → parse_uint m (itoa (pos n)) ≡ (n, none)
unfolding itoa
parse_uint-itoa m n l =
    rw (parse_uint-Printed m (digits-Printed (suc n) n (omega arith)))
      (parse_digits-digits m (suc n) n (omega arith) l)
