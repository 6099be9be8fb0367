-- ===== src/Memstore/Signed/Fits.antt =====
-- The signed conversions keep every number that fits in their type.
use openscraper_framework.Prelude.{◌≡◌, none, some, arith}
use openscraper_framework.Prelude.Int.{ℤ, InSigned}
use openscraper_framework.Prelude.Convert.{to_signed_fits}
use openscraper_framework.Strconv.RoundTrip.{parse_int-itoa}
use openscraper_framework.Memstore.Value.{
  Host, Value, nil, string, int16, Entry, numeric, half8, half16, half32, half64, entry_string,
  not_found, int64_kind,
}
use openscraper_framework.Memstore.Value.Texts.{entry_string-numeric}
use openscraper_framework.Memstore.Signed.{
  int_of, int_default, int8_of, int16_of, int32_of, int64_of, int64_default, SignedType, half,
  signed_default, int_type, int8_type, int16_type, int32_type, int64_type,
}

int_fits :
    {h : Host} (e : Entry h) (v : Value h) (default z : ℤ)
    → numeric v ≡ some z
    → InSigned half64 z
    → (int_of e v default).1 ≡ none
    → (int_of e v default).0 ≡ z
unfolding int_of
int_fits e nil default z n r ok = absurd (cc)
int_fits e _ default z n r ok = ground (arith, to_signed_fits half64 z)

int8_fits :
    {h : Host} (e : Entry h) (v : Value h) (default z : ℤ)
    → numeric v ≡ some z
    → InSigned half8 z
    → (int8_of e v default).1 ≡ none
    → (int8_of e v default).0 ≡ z
unfolding int8_of
int8_fits e nil default z n r ok = absurd (cc)
int8_fits e _ default z n r ok = ground (arith, to_signed_fits half8 z)

int16_fits :
    {h : Host} (e : Entry h) (v : Value h) (default z : ℤ)
    → numeric v ≡ some z
    → InSigned half16 z
    → (int16_of e v default).1 ≡ none
    → (int16_of e v default).0 ≡ z
unfolding int16_of
int16_fits e nil default z n r ok = absurd (cc)
int16_fits e _ default z n r ok = ground (arith, to_signed_fits half16 z)

int32_fits :
    {h : Host} (e : Entry h) (v : Value h) (default z : ℤ)
    → numeric v ≡ some z
    → InSigned half32 z
    → (int32_of e v default).1 ≡ none
    → (int32_of e v default).0 ≡ z
unfolding int32_of
int32_fits e nil default z n r ok = absurd (cc)
int32_fits e _ default z n r ok = ground (arith, to_signed_fits half32 z)

int64_fits :
    {h : Host} (e : Entry h) (v : Value h) (default z : ℤ)
    → numeric v ≡ some z
    → InSigned half64 z
    → (int64_of e v default).1 ≡ none
    → (int64_of e v default).0 ≡ z
unfolding int64_of
int64_fits e nil default z n r ok = absurd (cc)
int64_fits e _ default z n r ok = ground (arith, to_signed_fits half64 z)

-- A signed conversion that accepts an integer entry returns the entry's number itself, whenever the
-- number lies in the range of the type asked for.
pub signed_default_fits :
    {h : Host} (t : SignedType) (e : Entry h) (default z : ℤ)
    → numeric e.value_raw ≡ some z
    → InSigned (half t) z
    → (signed_default t e default).1 ≡ none
    → (signed_default t e default).0 ≡ z
unfolding signed_default
signed_default_fits int_type e default z n r ok = int_fits e e.value_raw default z n r ok
signed_default_fits int8_type e default z n r ok = int8_fits e e.value_raw default z n r ok
signed_default_fits int16_type e default z n r ok = int16_fits e e.value_raw default z n r ok
signed_default_fits int32_type e default z n r ok = int32_fits e e.value_raw default z n r ok
signed_default_fits int64_type e default z n r ok = int64_fits e e.value_raw default z n r ok

-- An int16 entry is an integer to IntDefault, and not found to Int64Default.
pub int64_refuses_int16 :
    {h : Host} (e : Entry h) (v default : ℤ)
    → e.value_raw ≡ int16 v
    → InSigned half16 v
    → (int_default e default ≡ (v, none))
      × (int64_default e default ≡ (default, not_found e int64_kind))
unfolding int_default int64_default
int64_refuses_int16 e v default k r =
    (rw (k, int_of) (ground (arith, to_signed_fits half64 v)), rw (k, int64_of))

-- Reading an entry as a string and storing that string keeps the integer: IntDefault of a
-- string entry that holds the printed text of an integer entry is the integer itself, for every
-- integer kind, as long as the number fits in an int.
pub int_default-sprint :
    {h : Host} (e e' : Entry h) (default z : ℤ)
    → numeric e.value_raw ≡ some z
    → InSigned half64 z
    → e'.value_raw ≡ string (entry_string e)
    → int_default e' default ≡ (z, none)
unfolding int_default
int_default-sprint e e' default z n r k =
    rw (k, int_of) (rw (entry_string-numeric e z n, parse_int-itoa half64 z r))
