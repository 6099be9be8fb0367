-- ===== src/Prelude/Convert.antt =====
-- Conversions between integer types: the result lies in the type, and a value that fits is kept.
use Prim.Native.Nat.{ℕ, ◌+◌, ◌%◌, ◌<◌}
use mathlib.Core.Path.{◌≡◌}
use native.Mathlib.Nat.{mod-eq_of_lt}
use native.Mathlib.Omega.{arith}
use openscraper_framework.Prelude.Int.{ℤ, pos, negsuc, InSigned, to_unsigned, of_pattern, to_signed}

pub to_unsigned-lt : (m : ℕ) (z : ℤ) → 0 < m → to_unsigned m z < m
to_unsigned-lt m (pos n) h = grind arith
to_unsigned-lt m (negsuc n) h = grind arith

of_pattern-InSigned : (m u : ℕ) → 0 < m → u < m + m → InSigned m (of_pattern m u)
of_pattern-InSigned m u h l = ground arith

pub to_signed-InSigned : (m : ℕ) (z : ℤ) → 0 < m → InSigned m (to_signed m z)
to_signed-InSigned m z h =
    of_pattern-InSigned m (to_unsigned (m + m) z) h (to_unsigned-lt (m + m) z (omega arith))

pub to_unsigned_pos : (m n : ℕ) → n < m → to_unsigned m (pos n) ≡ n
to_unsigned_pos m n h = grind arith

pub to_signed_fits : (m : ℕ) (z : ℤ) → InSigned m z → to_signed m z ≡ z
to_signed_fits m (pos n) h =
    let e : n % (m + m) ≡ n = mod-eq_of_lt (omega arith) in ground (arith, e)
to_signed_fits m (negsuc n) h =
    let e : n % (m + m) ≡ n = mod-eq_of_lt (omega arith) in ground (arith, e)
