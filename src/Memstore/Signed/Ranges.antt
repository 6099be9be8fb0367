-- ===== src/Memstore/Signed/Ranges.antt =====
-- The results of the signed conversions lie in their types.
use openscraper_framework.Prelude.{Option, none, some, arith}
use openscraper_framework.Prelude.Int.{ℤ, pos, InSigned}
use openscraper_framework.Prelude.Convert.{to_signed-InSigned}
use openscraper_framework.Strconv.{NumError, parse_int}
use openscraper_framework.Strconv.Range.{parse_int-InSigned}
use openscraper_framework.Memstore.Value.{
  Host, Value, nil, string, int, int8, int16, int32, int64, uint, uint8, uint16, uint32, uint64,
  Entry, IsValid, half8, half16, half32, half64,
}
use openscraper_framework.Memstore.Signed.{
  or_default, as_parsed, SignedType, half, signed_default, int_type, int8_type, int16_type,
  int32_type, int64_type, int_of, int8_of, int16_of, int32_of, int64_of,
}
use Prim.Native.Nat.{ℕ}

or_default-InSigned :
    (m : ℕ) (r : ℤ × Option NumError) (default : ℤ)
    → InSigned m r.0
    → InSigned m default
    → InSigned m (or_default r default).0
or_default-InSigned m (v, none) default h d = h
or_default-InSigned m (v, some err) default h d = d

as_parsed-InSigned : (m : ℕ) (r : ℤ × Option NumError) → InSigned m r.0 → InSigned m (as_parsed r).0
as_parsed-InSigned m (v, none) h = h
as_parsed-InSigned m (v, some err) h = h

int-InSigned :
    {h : Host} (e : Entry h) (v : Value h) (default : ℤ)
    → IsValid v
    → InSigned half64 default
    → InSigned half64 (int_of e v default).0
unfolding int_of
int-InSigned e nil default ok d = d
int-InSigned e (string s) default ok d =
    or_default-InSigned half64 (parse_int half64 s) default
      (parse_int-InSigned half64 s (omega arith)) d
int-InSigned e (int v) default ok d = ok
int-InSigned e (int8 v) default ok d = to_signed-InSigned half64 v (omega arith)
int-InSigned e (int16 v) default ok d = to_signed-InSigned half64 v (omega arith)
int-InSigned e (int32 v) default ok d = to_signed-InSigned half64 v (omega arith)
int-InSigned e (int64 v) default ok d = to_signed-InSigned half64 v (omega arith)
int-InSigned e (uint v) default ok d = to_signed-InSigned half64 (pos v) (omega arith)
int-InSigned e (uint8 v) default ok d = to_signed-InSigned half64 (pos v) (omega arith)
int-InSigned e (uint16 v) default ok d = to_signed-InSigned half64 (pos v) (omega arith)
int-InSigned e (uint32 v) default ok d = to_signed-InSigned half64 (pos v) (omega arith)
int-InSigned e (uint64 v) default ok d = to_signed-InSigned half64 (pos v) (omega arith)
int-InSigned e _ default ok d = d

int8-InSigned :
    {h : Host} (e : Entry h) (v : Value h) (default : ℤ)
    → IsValid v
    → InSigned half8 default
    → InSigned half8 (int8_of e v default).0
unfolding int8_of
int8-InSigned e nil default ok d = d
int8-InSigned e (string s) default ok d =
    or_default-InSigned half8 (parse_int half8 s) default (parse_int-InSigned half8 s (omega arith))
      d
int8-InSigned e (int v) default ok d = to_signed-InSigned half8 v (omega arith)
int8-InSigned e (int8 v) default ok d = ok
int8-InSigned e (int16 v) default ok d = to_signed-InSigned half8 v (omega arith)
int8-InSigned e (int32 v) default ok d = to_signed-InSigned half8 v (omega arith)
int8-InSigned e (int64 v) default ok d = to_signed-InSigned half8 v (omega arith)
int8-InSigned e (uint v) default ok d = to_signed-InSigned half8 (pos v) (omega arith)
int8-InSigned e (uint8 v) default ok d = to_signed-InSigned half8 (pos v) (omega arith)
int8-InSigned e (uint16 v) default ok d = to_signed-InSigned half8 (pos v) (omega arith)
int8-InSigned e (uint32 v) default ok d = to_signed-InSigned half8 (pos v) (omega arith)
int8-InSigned e (uint64 v) default ok d = to_signed-InSigned half8 (pos v) (omega arith)
int8-InSigned e _ default ok d = d

int16-InSigned :
    {h : Host} (e : Entry h) (v : Value h) (default : ℤ)
    → IsValid v
    → InSigned half16 default
    → InSigned half16 (int16_of e v default).0
unfolding int16_of
int16-InSigned e nil default ok d = d
int16-InSigned e (string s) default ok d =
    or_default-InSigned half16 (parse_int half16 s) default
      (parse_int-InSigned half16 s (omega arith)) d
int16-InSigned e (int v) default ok d = to_signed-InSigned half16 v (omega arith)
int16-InSigned e (int8 v) default ok d = to_signed-InSigned half16 v (omega arith)
int16-InSigned e (int16 v) default ok d = ok
int16-InSigned e (int32 v) default ok d = to_signed-InSigned half16 v (omega arith)
int16-InSigned e (int64 v) default ok d = to_signed-InSigned half16 v (omega arith)
int16-InSigned e (uint v) default ok d = to_signed-InSigned half16 (pos v) (omega arith)
int16-InSigned e (uint8 v) default ok d = to_signed-InSigned half16 (pos v) (omega arith)
int16-InSigned e (uint16 v) default ok d = to_signed-InSigned half16 (pos v) (omega arith)
int16-InSigned e (uint32 v) default ok d = to_signed-InSigned half16 (pos v) (omega arith)
int16-InSigned e (uint64 v) default ok d = to_signed-InSigned half16 (pos v) (omega arith)
int16-InSigned e _ default ok d = d

int32-InSigned :
    {h : Host} (e : Entry h) (v : Value h) (default : ℤ)
    → IsValid v
    → InSigned half32 default
    → InSigned half32 (int32_of e v default).0
unfolding int32_of
int32-InSigned e nil default ok d = d
int32-InSigned e (string s) default ok d =
    or_default-InSigned half32 (parse_int half32 s) default
      (parse_int-InSigned half32 s (omega arith)) d
int32-InSigned e (int v) default ok d = to_signed-InSigned half32 v (omega arith)
int32-InSigned e (int8 v) default ok d = to_signed-InSigned half32 v (omega arith)
int32-InSigned e (int16 v) default ok d = to_signed-InSigned half32 v (omega arith)
int32-InSigned e (int32 v) default ok d = ok
int32-InSigned e (int64 v) default ok d = to_signed-InSigned half32 v (omega arith)
int32-InSigned e _ default ok d = d

int64-InSigned :
    {h : Host} (e : Entry h) (v : Value h) (default : ℤ)
    → IsValid v
    → InSigned half64 default
    → InSigned half64 (int64_of e v default).0
unfolding int64_of
int64-InSigned e nil default ok d = d
int64-InSigned e (string s) default ok d =
    as_parsed-InSigned half64 (parse_int half64 s) (parse_int-InSigned half64 s (omega arith))
int64-InSigned e (int v) default ok d = to_signed-InSigned half64 v (omega arith)
int64-InSigned e (int8 v) default ok d = to_signed-InSigned half64 v (omega arith)
int64-InSigned e (int32 v) default ok d = to_signed-InSigned half64 v (omega arith)
int64-InSigned e (int64 v) default ok d = ok
int64-InSigned e (uint v) default ok d = to_signed-InSigned half64 (pos v) (omega arith)
int64-InSigned e (uint8 v) default ok d = to_signed-InSigned half64 (pos v) (omega arith)
int64-InSigned e (uint16 v) default ok d = to_signed-InSigned half64 (pos v) (omega arith)
int64-InSigned e (uint32 v) default ok d = to_signed-InSigned half64 (pos v) (omega arith)
int64-InSigned e (uint64 v) default ok d = to_signed-InSigned half64 (pos v) (omega arith)
int64-InSigned e _ default ok d = d

-- Every signed conversion of a valid entry, accepted or not, returns a value of its type, if the
-- default is one.
pub signed_default-InSigned :
    {h : Host} (t : SignedType) (e : Entry h) (default : ℤ)
    → IsValid e.value_raw
    → InSigned (half t) default
    → InSigned (half t) (signed_default t e default).0
unfolding signed_default
signed_default-InSigned int_type e default ok d = int-InSigned e e.value_raw default ok d
signed_default-InSigned int8_type e default ok d = int8-InSigned e e.value_raw default ok d
signed_default-InSigned int16_type e default ok d = int16-InSigned e e.value_raw default ok d
signed_default-InSigned int32_type e default ok d = int32-InSigned e e.value_raw default ok d
signed_default-InSigned int64_type e default ok d = int64-InSigned e e.value_raw default ok d
