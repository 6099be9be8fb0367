-- ===== src/Memstore/Unsigned/Ranges.antt =====
-- The results of the unsigned conversions lie in their types.
use openscraper_framework.Prelude.{ℕ, ◌<◌, arith}
use openscraper_framework.Strconv.Range.{parse_uint-lt}
use openscraper_framework.Memstore.Value.{
  Host, Value, nil, string, Entry, IsValid, size8, size16, size32, size64,
}
use openscraper_framework.Memstore.Unsigned.{
  uint_of, uint8_of, uint16_of, uint32_of, uint64_of, UnsignedType, size, unsigned_default,
  uint_type, uint8_type, uint16_type, uint32_type, uint64_type,
}

uint-lt :
    {h : Host} (e : Entry h) (v : Value h) (default : ℕ)
    → IsValid v
    → default < size64
    → (uint_of e v default).0 < size64
unfolding uint_of
uint-lt e nil default ok d = d
uint-lt e (string s) default ok d = ground (arith, parse_uint-lt size64 s)
uint-lt e _ default ok d = ground arith

uint8-lt :
    {h : Host} (e : Entry h) (v : Value h) (default : ℕ)
    → IsValid v
    → default < size8
    → (uint8_of e v default).0 < size8
unfolding uint8_of
uint8-lt e nil default ok d = d
uint8-lt e (string s) default ok d = ground (arith, parse_uint-lt size8 s)
uint8-lt e _ default ok d = ground arith

uint16-lt :
    {h : Host} (e : Entry h) (v : Value h) (default : ℕ)
    → IsValid v
    → default < size16
    → (uint16_of e v default).0 < size16
unfolding uint16_of
uint16-lt e nil default ok d = d
uint16-lt e (string s) default ok d = ground (arith, parse_uint-lt size16 s)
uint16-lt e _ default ok d = ground arith

uint32-lt :
    {h : Host} (e : Entry h) (v : Value h) (default : ℕ)
    → IsValid v
    → default < size32
    → (uint32_of e v default).0 < size32
unfolding uint32_of
uint32-lt e nil default ok d = d
uint32-lt e (string s) default ok d = ground (arith, parse_uint-lt size32 s)
uint32-lt e _ default ok d = ground arith

uint64-lt :
    {h : Host} (e : Entry h) (v : Value h) (default : ℕ)
    → IsValid v
    → default < size64
    → (uint64_of e v default).0 < size64
unfolding uint64_of
uint64-lt e nil default ok d = d
uint64-lt e (string s) default ok d = ground (arith, parse_uint-lt size64 s)
uint64-lt e _ default ok d = ground arith

-- Every unsigned conversion of a valid entry, accepted or not, returns a value of its type, if
-- the default is one.
pub unsigned_default-lt :
    {h : Host} (t : UnsignedType) (e : Entry h) (default : ℕ)
    → IsValid e.value_raw
    → default < size t
    → (unsigned_default t e default).0 < size t
unfolding unsigned_default
unsigned_default-lt uint_type e default ok d = uint-lt e e.value_raw default ok d
unsigned_default-lt uint8_type e default ok d = uint8-lt e e.value_raw default ok d
unsigned_default-lt uint16_type e default ok d = uint16-lt e e.value_raw default ok d
unsigned_default-lt uint32_type e default ok d = uint32-lt e e.value_raw default ok d
unsigned_default-lt uint64_type e default ok d = uint64-lt e e.value_raw default ok d
