-- ===== src/Strconv/Range.antt =====
-- The value of a parse lies in the range of its type, with an error or without.
use openscraper_framework.Prelude.{
  ℕ, ◌<◌, ◌+◌, ◌*◌, ◌-◌, ◌≡◌, refl, Bool, true, false, Option, none, some, [], ◌∷◌, arith,
}
use openscraper_framework.Prelude.Int.{negsuc, pos, InSigned}
use openscraper_framework.Prelude.Text.{Text, bytes}
use openscraper_framework.Strconv.{
  NumError, range, syntax, parse_uint, parse_int, parse_digits, after_digits, in_range, itoa,
}

parse_digits-lt : (m n : ℕ) (s : Text) → n < m → (parse_digits m n s).0 < m
unfolding parse_digits
parse_digits-lt m n [] h = h
parse_digits-lt m n (c ∷ cs) h = ground (arith, parse_digits-lt m (n * 10 + (c - b'0')) cs)

pub parse_uint-lt : (m : ℕ) (s : Text) → 0 < m → (parse_uint m s).0 < m
unfolding parse_uint
parse_uint-lt m [] h = h
parse_uint-lt m (c ∷ cs) h = parse_digits-lt m 0 (c ∷ cs) h

in_range-InSigned : (m n : ℕ) (neg : Bool) → 0 < m → InSigned m (in_range m neg n).0
unfolding in_range
in_range-InSigned m n false h = ground arith
in_range-InSigned m n true h = ground arith

after_digits-InSigned :
    (m : ℕ) (neg : Bool) (r : ℕ × Option NumError) → 0 < m → InSigned m (after_digits m neg r).0
unfolding after_digits
after_digits-InSigned m neg (n, some syntax) h = (omega arith, omega arith)
after_digits-InSigned m neg (n, some range) h = in_range-InSigned m n neg h
after_digits-InSigned m neg (n, none) h = in_range-InSigned m n neg h

-- Whatever the text, ParseInt returns a value of its type.
pub parse_int-InSigned : (m : ℕ) (s : Text) → 0 < m → InSigned m (parse_int m s).0
unfolding parse_int
parse_int-InSigned m [] h = (omega arith, omega arith)
parse_int-InSigned m (c ∷ cs) h = ground (
  arith,
  after_digits-InSigned m true (parse_uint (m + m) cs),
  after_digits-InSigned m false (parse_uint (m + m) cs),
  after_digits-InSigned m false (parse_uint (m + m) (c ∷ cs)),
)

minus_128 : parse_int 128 (bytes "-128") ≡ (negsuc 127, none)
unfolding parse_int
minus_128 = refl

out_of_range : parse_int 128 (bytes "128") ≡ (pos 127, some range)
unfolding parse_int
out_of_range = refl

printed : itoa (negsuc 1204) ≡ bytes "-1205"
unfolding itoa
printed = refl
