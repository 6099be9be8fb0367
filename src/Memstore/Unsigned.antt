-- ===== src/Memstore/Unsigned.antt =====
-- The conversions of an entry to the unsigned integer types, with the range tests of each type.
pub mod Ranges
pub mod Exact
use openscraper_framework.Prelude.{ℕ, ◌-◌, ◌||◌, Option, none, some, ltb, if◌then◌else◌}
use openscraper_framework.Prelude.Int.{ℤ, pos, to_signed, to_unsigned, ltb_ℤ}
use openscraper_framework.Strconv.{NumError, parse_uint}
use openscraper_framework.Memstore.Value.{
  Host, Value, nil, string, int, int8, int16, int32, int64, uint, uint8, uint16, uint32, uint64,
  Entry, Kind, uint_kind, uint8_kind, uint16_kind, uint32_kind, uint64_kind, Err, num_error,
  not_found, half64, size8, size16, size32, size64,
}

-- `if vv > max { return def, notFound }; return vv`, of an unsigned value and of a signed one. The
-- second bound is what the source compares with, already converted to an int.
at_most : {h : Host} → Entry h → Kind → ℕ → ℕ → ℕ → ℕ × Option Err
at_most e kind limit v default = if ltb limit v then (default, not_found e kind) else (v, none)

within : {h : Host} → Entry h → Kind → ℤ → ℕ → ℤ → ℕ → ℕ × Option Err
within e kind limit size v default =
    if ltb_ℤ v (pos 0) || ltb_ℤ limit v
    then (default, not_found e kind)
    else (to_unsigned size v, none)

-- A string, with the test that the source makes once more after ParseUint.
parsed : {h : Host} → Entry h → Kind → ℕ → ℕ × Option NumError → ℕ → ℕ × Option Err
parsed e kind limit (v, some err) default = (default, some (num_error err))
parsed e kind limit (v, none) default = at_most e kind limit v default

uint_of : {h : Host} → Entry h → Value h → ℕ → ℕ × Option Err
unfolding at_most within parsed
uint_of e nil default = (default, not_found e uint_kind)
uint_of e (string s) default = parsed e uint_kind (size64 - 1) (parse_uint size64 s) default
uint_of e (uint v) default = (v, none)
uint_of e (uint8 v) default = (to_unsigned size64 (pos v), none)
uint_of e (uint16 v) default = (to_unsigned size64 (pos v), none)
uint_of e (uint32 v) default = (to_unsigned size64 (pos v), none)
uint_of e (uint64 v) default = at_most e uint_kind (size64 - 1) v default
uint_of e (int v) default =
    within e uint_kind (to_signed half64 (pos (size64 - 1))) size64 v default
uint_of e (int8 v) default = (to_unsigned size64 v, none)
uint_of e (int16 v) default = (to_unsigned size64 v, none)
uint_of e (int32 v) default = (to_unsigned size64 v, none)
uint_of e (int64 v) default = (to_unsigned size64 v, none)
uint_of e _ default = (default, not_found e uint_kind)

unfoldable pub uint_default : {h : Host} → Entry h → ℕ → ℕ × Option Err
unfolding uint_of
uint_default e default = uint_of e e.value_raw default

uint8_of : {h : Host} → Entry h → Value h → ℕ → ℕ × Option Err
unfolding at_most within parsed
uint8_of e nil default = (default, not_found e uint8_kind)
uint8_of e (string s) default = parsed e uint8_kind (size8 - 1) (parse_uint size8 s) default
uint8_of e (uint v) default = at_most e uint8_kind (size8 - 1) v default
uint8_of e (uint8 v) default = (v, none)
uint8_of e (uint16 v) default = at_most e uint8_kind (size8 - 1) v default
uint8_of e (uint32 v) default = at_most e uint8_kind (size8 - 1) v default
uint8_of e (uint64 v) default = at_most e uint8_kind (size8 - 1) v default
uint8_of e (int v) default = within e uint8_kind (pos (size8 - 1)) size8 v default
uint8_of e _ default = (default, not_found e uint8_kind)

unfoldable pub uint8_default : {h : Host} → Entry h → ℕ → ℕ × Option Err
unfolding uint8_of
uint8_default e default = uint8_of e e.value_raw default

uint16_of : {h : Host} → Entry h → Value h → ℕ → ℕ × Option Err
unfolding at_most within parsed
uint16_of e nil default = (default, not_found e uint16_kind)
uint16_of e (string s) default = parsed e uint16_kind (size16 - 1) (parse_uint size16 s) default
uint16_of e (uint v) default = at_most e uint16_kind (size16 - 1) v default
uint16_of e (uint8 v) default = (to_unsigned size16 (pos v), none)
uint16_of e (uint16 v) default = (v, none)
uint16_of e (uint32 v) default = at_most e uint16_kind (size16 - 1) v default
uint16_of e (uint64 v) default = at_most e uint16_kind (size16 - 1) v default
uint16_of e (int v) default = within e uint16_kind (pos (size16 - 1)) size16 v default
uint16_of e _ default = (default, not_found e uint16_kind)

unfoldable pub uint16_default : {h : Host} → Entry h → ℕ → ℕ × Option Err
unfolding uint16_of
uint16_default e default = uint16_of e e.value_raw default

uint32_of : {h : Host} → Entry h → Value h → ℕ → ℕ × Option Err
unfolding at_most within parsed
uint32_of e nil default = (default, not_found e uint32_kind)
uint32_of e (string s) default = parsed e uint32_kind (size32 - 1) (parse_uint size32 s) default
uint32_of e (uint v) default = at_most e uint32_kind (size32 - 1) v default
uint32_of e (uint8 v) default = (to_unsigned size32 (pos v), none)
uint32_of e (uint16 v) default = (to_unsigned size32 (pos v), none)
uint32_of e (uint32 v) default = (v, none)
uint32_of e (uint64 v) default = at_most e uint32_kind (size32 - 1) v default
uint32_of e (int32 v) default = (to_unsigned size32 v, none)
uint32_of e (int64 v) default = within e uint32_kind (pos (size32 - 1)) size32 v default
uint32_of e _ default = (default, not_found e uint32_kind)

unfoldable pub uint32_default : {h : Host} → Entry h → ℕ → ℕ × Option Err
unfolding uint32_of
uint32_default e default = uint32_of e e.value_raw default

uint64_of : {h : Host} → Entry h → Value h → ℕ → ℕ × Option Err
unfolding at_most within parsed
uint64_of e nil default = (default, not_found e uint64_kind)
uint64_of e (string s) default = parsed e uint64_kind (size64 - 1) (parse_uint size64 s) default
uint64_of e (uint8 v) default = (to_unsigned size64 (pos v), none)
uint64_of e (uint16 v) default = (to_unsigned size64 (pos v), none)
uint64_of e (uint32 v) default = (to_unsigned size64 (pos v), none)
uint64_of e (uint64 v) default = (v, none)
uint64_of e (int64 v) default = (to_unsigned size64 v, none)
uint64_of e (int v) default = (to_unsigned size64 v, none)
uint64_of e _ default = (default, not_found e uint64_kind)

unfoldable pub uint64_default : {h : Host} → Entry h → ℕ → ℕ × Option Err
unfolding uint64_of
uint64_default e default = uint64_of e e.value_raw default

-- The five methods of this file as one, by the type that is asked for.
pub data UnsignedType : Type 0 where
  uint_type uint8_type uint16_type uint32_type uint64_type : UnsignedType

abbrev pub size : UnsignedType → ℕ
size uint_type = size64
size uint8_type = size8
size uint16_type = size16
size uint32_type = size32
size uint64_type = size64

unfoldable pub unsigned_default : {h : Host} → UnsignedType → Entry h → ℕ → ℕ × Option Err
unfolding uint_default uint8_default uint16_default uint32_default uint64_default
unsigned_default uint_type e default = uint_default e default
unsigned_default uint8_type e default = uint8_default e default
unsigned_default uint16_type e default = uint16_default e default
unsigned_default uint32_type e default = uint32_default e default
unsigned_default uint64_type e default = uint64_default e default
