-- ===== src/Memstore/Signed.antt =====
-- The conversions of an entry to the signed integer types. A result comes with Go's `error`, which
-- is `none` where the source returns nil.
pub mod Ranges
pub mod Fits
use openscraper_framework.Prelude.{ℕ, Option, none, some}
use openscraper_framework.Prelude.Int.{ℤ, pos, to_signed}
use openscraper_framework.Strconv.{NumError, parse_int}
use openscraper_framework.Memstore.Value.{
  Host, Value, nil, string, int, int8, int16, int32, int64, uint, uint8, uint16, uint32, uint64,
  Entry, int_kind, int8_kind, int16_kind, int32_kind, int64_kind, Err, num_error, not_found, half8,
  half16, half32, half64,
}

-- `if err != nil { return def, err }` after a parse.
abbrev pub or_default {ℓ} : {A : Type ℓ} → A × Option NumError → A → A × Option Err
or_default (v, none) default = (v, none)
or_default (v, some err) default = (default, some (num_error err))

-- `return strconv.ParseInt(...)`: the value of the parse, beside its error.
abbrev pub as_parsed {ℓ} : {A : Type ℓ} → A × Option NumError → A × Option Err
as_parsed (v, none) = (v, none)
as_parsed (v, some err) = (v, some (num_error err))

int_of : {h : Host} → Entry h → Value h → ℤ → ℤ × Option Err
int_of e nil default = (default, not_found e int_kind)
int_of e (string s) default = or_default (parse_int half64 s) default
int_of e (int v) default = (v, none)
int_of e (int8 v) default = (to_signed half64 v, none)
int_of e (int16 v) default = (to_signed half64 v, none)
int_of e (int32 v) default = (to_signed half64 v, none)
int_of e (int64 v) default = (to_signed half64 v, none)
int_of e (uint v) default = (to_signed half64 (pos v), none)
int_of e (uint8 v) default = (to_signed half64 (pos v), none)
int_of e (uint16 v) default = (to_signed half64 (pos v), none)
int_of e (uint32 v) default = (to_signed half64 (pos v), none)
int_of e (uint64 v) default = (to_signed half64 (pos v), none)
int_of e _ default = (default, not_found e int_kind)

unfoldable pub int_default : {h : Host} → Entry h → ℤ → ℤ × Option Err
unfolding int_of
int_default e default = int_of e e.value_raw default

int8_of : {h : Host} → Entry h → Value h → ℤ → ℤ × Option Err
int8_of e nil default = (default, not_found e int8_kind)
int8_of e (string s) default = or_default (parse_int half8 s) default
int8_of e (int v) default = (to_signed half8 v, none)
int8_of e (int8 v) default = (v, none)
int8_of e (int16 v) default = (to_signed half8 v, none)
int8_of e (int32 v) default = (to_signed half8 v, none)
int8_of e (int64 v) default = (to_signed half8 v, none)
int8_of e (uint v) default = (to_signed half8 (pos v), none)
int8_of e (uint8 v) default = (to_signed half8 (pos v), none)
int8_of e (uint16 v) default = (to_signed half8 (pos v), none)
int8_of e (uint32 v) default = (to_signed half8 (pos v), none)
int8_of e (uint64 v) default = (to_signed half8 (pos v), none)
int8_of e _ default = (default, not_found e int8_kind)

unfoldable pub int8_default : {h : Host} → Entry h → ℤ → ℤ × Option Err
unfolding int8_of
int8_default e default = int8_of e e.value_raw default

int16_of : {h : Host} → Entry h → Value h → ℤ → ℤ × Option Err
int16_of e nil default = (default, not_found e int16_kind)
int16_of e (string s) default = or_default (parse_int half16 s) default
int16_of e (int v) default = (to_signed half16 v, none)
int16_of e (int8 v) default = (to_signed half16 v, none)
int16_of e (int16 v) default = (v, none)
int16_of e (int32 v) default = (to_signed half16 v, none)
int16_of e (int64 v) default = (to_signed half16 v, none)
int16_of e (uint v) default = (to_signed half16 (pos v), none)
int16_of e (uint8 v) default = (to_signed half16 (pos v), none)
int16_of e (uint16 v) default = (to_signed half16 (pos v), none)
int16_of e (uint32 v) default = (to_signed half16 (pos v), none)
int16_of e (uint64 v) default = (to_signed half16 (pos v), none)
int16_of e _ default = (default, not_found e int16_kind)

unfoldable pub int16_default : {h : Host} → Entry h → ℤ → ℤ × Option Err
unfolding int16_of
int16_default e default = int16_of e e.value_raw default

int32_of : {h : Host} → Entry h → Value h → ℤ → ℤ × Option Err
int32_of e nil default = (default, not_found e int32_kind)
int32_of e (string s) default = or_default (parse_int half32 s) default
int32_of e (int v) default = (to_signed half32 v, none)
int32_of e (int8 v) default = (to_signed half32 v, none)
int32_of e (int16 v) default = (to_signed half32 v, none)
int32_of e (int32 v) default = (v, none)
int32_of e (int64 v) default = (to_signed half32 v, none)
int32_of e _ default = (default, not_found e int32_kind)

unfoldable pub int32_default : {h : Host} → Entry h → ℤ → ℤ × Option Err
unfolding int32_of
int32_default e default = int32_of e e.value_raw default

int64_of : {h : Host} → Entry h → Value h → ℤ → ℤ × Option Err
int64_of e nil default = (default, not_found e int64_kind)
int64_of e (string s) default = as_parsed (parse_int half64 s)
int64_of e (int64 v) default = (v, none)
int64_of e (int32 v) default = (to_signed half64 v, none)
int64_of e (int8 v) default = (to_signed half64 v, none)
int64_of e (int v) default = (to_signed half64 v, none)
int64_of e (uint v) default = (to_signed half64 (pos v), none)
int64_of e (uint8 v) default = (to_signed half64 (pos v), none)
int64_of e (uint16 v) default = (to_signed half64 (pos v), none)
int64_of e (uint32 v) default = (to_signed half64 (pos v), none)
int64_of e (uint64 v) default = (to_signed half64 (pos v), none)
int64_of e _ default = (default, not_found e int64_kind)

unfoldable pub int64_default : {h : Host} → Entry h → ℤ → ℤ × Option Err
unfolding int64_of
int64_default e default = int64_of e e.value_raw default

-- The five methods of this file as one, by the type that is asked for.
pub data SignedType : Type 0 where
  int_type int8_type int16_type int32_type int64_type : SignedType

abbrev pub half : SignedType → ℕ
half int_type = half64
half int8_type = half8
half int16_type = half16
half int32_type = half32
half int64_type = half64

unfoldable pub signed_default : {h : Host} → SignedType → Entry h → ℤ → ℤ × Option Err
unfolding int_default int8_default int16_default int32_default int64_default
signed_default int_type e default = int_default e default
signed_default int8_type e default = int8_default e default
signed_default int16_type e default = int16_default e default
signed_default int32_type e default = int32_default e default
signed_default int64_type e default = int64_default e default
