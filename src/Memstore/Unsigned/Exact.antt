-- ===== src/Memstore/Unsigned/Exact.antt =====
-- Which numbers the unsigned conversions keep, refuse and alter.
use openscraper_framework.Prelude.{ℕ, ◌<◌, ◌-◌, ◌≡◌, none, some, arith}
use openscraper_framework.Prelude.Int.{ℤ, pos, negsuc}
use openscraper_framework.Memstore.Value.{
  Host, Value, nil, int, int32, int64, uint, Entry, IsValid, numeric, half32, size32, not_found,
  uint_kind, uint8_kind, uint16_kind, uint32_kind,
}
use openscraper_framework.Memstore.Unsigned.{
  uint_of, uint8_of, uint16_of, uint32_of, uint64_of, uint_default, uint8_default, uint16_default,
  uint32_default, UnsignedType, unsigned_default, uint_type, uint8_type, uint16_type, uint32_type,
  uint64_type,
}

uint_exact :
    {h : Host} (e : Entry h) (v : Value h) (default n : ℕ)
    → IsValid v
    → numeric v ≡ some (pos n)
    → (uint_of e v default).1 ≡ none
    → (uint_of e v default).0 ≡ n
unfolding uint_of
uint_exact e nil default n ok k a = absurd (cc)
uint_exact e _ default n ok k a = ground arith

uint8_exact :
    {h : Host} (e : Entry h) (v : Value h) (default n : ℕ)
    → IsValid v
    → numeric v ≡ some (pos n)
    → (uint8_of e v default).1 ≡ none
    → (uint8_of e v default).0 ≡ n
unfolding uint8_of
uint8_exact e nil default n ok k a = absurd (cc)
uint8_exact e _ default n ok k a = ground arith

uint16_exact :
    {h : Host} (e : Entry h) (v : Value h) (default n : ℕ)
    → IsValid v
    → numeric v ≡ some (pos n)
    → (uint16_of e v default).1 ≡ none
    → (uint16_of e v default).0 ≡ n
unfolding uint16_of
uint16_exact e nil default n ok k a = absurd (cc)
uint16_exact e _ default n ok k a = ground arith

uint32_exact :
    {h : Host} (e : Entry h) (v : Value h) (default n : ℕ)
    → IsValid v
    → numeric v ≡ some (pos n)
    → (uint32_of e v default).1 ≡ none
    → (uint32_of e v default).0 ≡ n
unfolding uint32_of
uint32_exact e nil default n ok k a = absurd (cc)
uint32_exact e _ default n ok k a = ground arith

uint64_exact :
    {h : Host} (e : Entry h) (v : Value h) (default n : ℕ)
    → IsValid v
    → numeric v ≡ some (pos n)
    → (uint64_of e v default).1 ≡ none
    → (uint64_of e v default).0 ≡ n
unfolding uint64_of
uint64_exact e nil default n ok k a = absurd (cc)
uint64_exact e _ default n ok k a = ground arith

-- An unsigned conversion that accepts a valid integer entry of a non-negative number returns that
-- number: no unsigned type truncates.
pub unsigned_default_exact :
    {h : Host} (t : UnsignedType) (e : Entry h) (default n : ℕ)
    → IsValid e.value_raw
    → numeric e.value_raw ≡ some (pos n)
    → (unsigned_default t e default).1 ≡ none
    → (unsigned_default t e default).0 ≡ n
unfolding unsigned_default
unsigned_default_exact uint_type e default n ok k a = uint_exact e e.value_raw default n ok k a
unsigned_default_exact uint8_type e default n ok k a = uint8_exact e e.value_raw default n ok k a
unsigned_default_exact uint16_type e default n ok k a = uint16_exact e e.value_raw default n ok k a
unsigned_default_exact uint32_type e default n ok k a = uint32_exact e e.value_raw default n ok k a
unsigned_default_exact uint64_type e default n ok k a = uint64_exact e e.value_raw default n ok k a

uint8_negative :
    {h : Host} (e : Entry h) (v : Value h) (default n : ℕ)
    → numeric v ≡ some (negsuc n)
    → uint8_of e v default ≡ (default, not_found e uint8_kind)
unfolding uint8_of
uint8_negative e nil default n k = absurd (cc)
uint8_negative e _ default n k = ground arith

uint16_negative :
    {h : Host} (e : Entry h) (v : Value h) (default n : ℕ)
    → numeric v ≡ some (negsuc n)
    → uint16_of e v default ≡ (default, not_found e uint16_kind)
unfolding uint16_of
uint16_negative e nil default n k = absurd (cc)
uint16_negative e _ default n k = ground arith

-- Uint8Default and Uint16Default refuse every negative integer, whatever its type.
pub narrow_refuses_negative :
    {h : Host} (e : Entry h) (default n : ℕ)
    → numeric e.value_raw ≡ some (negsuc n)
    → (uint8_default e default ≡ (default, not_found e uint8_kind))
      × (uint16_default e default ≡ (default, not_found e uint16_kind))
unfolding uint8_default uint16_default
narrow_refuses_negative e default n k =
    (uint8_negative e e.value_raw default n k, uint16_negative e e.value_raw default n k)

-- Uint32Default refuses a negative int64 entry, but accepts an int32 entry of the same negative
-- number and returns the number modulo 2 ^ 32.
pub uint32_default-negative :
    {h : Host} (e e' : Entry h) (default n : ℕ)
    → n < half32
    → e.value_raw ≡ int64 (negsuc n)
    → e'.value_raw ≡ int32 (negsuc n)
    → (uint32_default e default ≡ (default, not_found e uint32_kind))
      × (uint32_default e' default ≡ (size32 - 1 - n, none))
unfolding uint32_default
uint32_default-negative e e' default n l p q =
    (rw (p, uint32_of) (ground arith), rw (q, uint32_of) (ground arith))

uint_of-int :
    {h : Host} (e : Entry h) (z : ℤ) (default : ℕ)
    → uint_of e (int z) default ≡ (default, not_found e uint_kind)
unfolding uint_of
uint_of-int e (pos n) default = ground arith
uint_of-int e (negsuc n) default = ground arith

-- UintDefault refuses every int entry, of any number, also one that is not negative: the bound that it
-- compares with is int(maxValue), which is -1 on a 64-bit system. It accepts every uint entry.
pub uint_default-int :
    {h : Host} (e e' : Entry h) (z : ℤ) (default n : ℕ)
    → e.value_raw ≡ int z
    → e'.value_raw ≡ uint n
    → (uint_default e default ≡ (default, not_found e uint_kind))
      × (uint_default e' default ≡ (n, none))
unfolding uint_default
uint_default-int e e' z default n p q = (rw (p, uint_of-int e z default), rw (q, uint_of))
