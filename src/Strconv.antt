-- ===== src/Strconv.antt =====
-- What the program uses of Go's strconv: decimal integers of a given width, and booleans.
-- A failed parse still has a value beside its error, as in Go: 0 for a bad text, the nearest bound
-- for a number out of range. A width stands for its bound: `m` is 2 to the width for unsigned
-- types, and 2 to the width less one for signed types.
pub mod Range
pub mod RoundTrip
use openscraper_framework.Prelude.{
  ℕ, zero, suc, ◌+◌, ◌-◌, ◌*◌, ◌/◌, ◌%◌, Bool, true, false, ◌&&◌, ◌||◌, Option, none, some, List,
  [], ◌∷◌, ◌++◌, ltb, leb, ◌==◌, if◌then◌else◌,
}
use openscraper_framework.Prelude.Int.{ℤ, pos, negsuc}
use openscraper_framework.Prelude.Text.{Text, bytes, eqb}

pub data NumError : Type 0 where
  syntax range : NumError

abbrev pub is_digit : ℕ → Bool
is_digit c = leb b'0' c && leb c b'9'

-- The digits read so far are worth `n`.
parse_digits : ℕ → ℕ → Text → ℕ × Option NumError
parse_digits m n [] = (n, none)
parse_digits m n (c ∷ cs) =
    let next = n * 10 + (c - b'0') in
    let rest = parse_digits m next cs in
    if is_digit c then (if ltb next m then rest else (m - 1, some range)) else (0, some syntax)

-- strconv.ParseUint(s, 10, w) with m = 2 ^ w
unfoldable pub parse_uint : ℕ → Text → ℕ × Option NumError
unfolding parse_digits
parse_uint m [] = (0, some syntax)
parse_uint m (c ∷ cs) = parse_digits m 0 (c ∷ cs)

abbrev pub negate : ℕ → ℤ
negate zero = pos 0
negate (suc n) = negsuc n

-- The range test of ParseInt, after the digits: `neg` tells the sign.
in_range : ℕ → Bool → ℕ → ℤ × Option NumError
in_range m false n = if ltb n m then (pos n, none) else (pos (m - 1), some range)
in_range m true n = if leb n m then (negate n, none) else (negate m, some range)

after_digits : ℕ → Bool → ℕ × Option NumError → ℤ × Option NumError
after_digits m neg (n, some syntax) = (pos 0, some syntax)
after_digits m neg (n, some range) = in_range m neg n
after_digits m neg (n, none) = in_range m neg n

parse_sign : ℕ → ℕ → Text → ℤ × Option NumError
parse_sign m c cs =
    if c == b'-'
    then after_digits m true (parse_uint (m + m) cs)
    else if c == b'+'
    then after_digits m false (parse_uint (m + m) cs)
    else after_digits m false (parse_uint (m + m) (c ∷ cs))

-- strconv.ParseInt(s, 10, w) with m = 2 ^ (w - 1); strconv.Atoi is the case of the 64-bit int
unfoldable pub parse_int : ℕ → Text → ℤ × Option NumError
unfolding parse_sign after_digits in_range parse_uint
parse_int m [] = (pos 0, some syntax)
parse_int m (c ∷ cs) = parse_sign m c cs

is_one_of : Text → List Text → Bool
is_one_of s [] = false
is_one_of s (t ∷ ts) = eqb s t || is_one_of s ts

-- strconv.ParseBool
unfoldable pub parse_bool : Text → Bool × Option NumError
unfolding is_one_of eqb
parse_bool s =
    if is_one_of s
      (bytes "1" ∷ bytes "t" ∷ bytes "T" ∷ bytes "TRUE" ∷ bytes "true" ∷ bytes "True" ∷ [])
    then (true, none)
    else if is_one_of s
        (bytes "0" ∷ bytes "f" ∷ bytes "F" ∷ bytes "FALSE" ∷ bytes "false" ∷ bytes "False" ∷ [])
    then (false, none)
    else (false, some syntax)

-- The decimal digits of `n`, for any fuel above `n`.
digits : ℕ → ℕ → Text
digits zero n = []
digits (suc fuel) n =
    let more = digits fuel (n / 10) ++ (b'0' + n % 10) ∷ [] in
    if ltb n 10 then (b'0' + n) ∷ [] else more

-- The text of an integer, as fmt.Sprintf("%v", n) and strconv.Itoa write it.
unfoldable pub itoa : ℤ → Text
unfolding digits
itoa (pos n) = digits (suc n) n
itoa (negsuc n) = b'-' ∷ digits (suc (suc n)) (suc n)
