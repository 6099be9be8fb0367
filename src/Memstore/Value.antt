-- ===== src/Memstore/Value.antt =====
-- The entries of a store: their dynamic values, and what a lookup of a kind returns on failure.
-- An `interface{}` is a value of one of the types that the code switches on, or an opaque object.
pub mod Texts
use openscraper_framework.Prelude.{
  ℕ, ◌<◌, Bool, true, false, not, ◌&&◌, Option, none, some, [], ◌∷◌, if◌then◌else◌,
}
use openscraper_framework.Prelude.Int.{ℤ, pos, InSigned}
use openscraper_framework.Prelude.Text.{Text, bytes, eqb}
use openscraper_framework.Strconv.{NumError, itoa}

-- Floating-point numbers and objects are the host's: their types and the conversions that the
-- code asks for.
pub record Host : Type 1 where
  pub Float32 : Type 0
  pub Float64 : Type 0
  pub Object : Type 0
  pub sprint_float32 : Float32 → Text
  pub sprint_float64 : Float64 → Text
  pub sprint_object : Object → Text
  pub parse_float : Text → Float64 × Option NumError
  pub parse_float_32 : Text → Float64 × Option NumError
  pub above_max_float32 : Float64 → Bool
  pub narrow : Float64 → Float32
  pub widen : Float32 → Float64
  pub float32_of : ℤ → Float32
  pub float64_of : ℤ → Float64

-- The widths of the integer types: 2 to the width less one. An int has 64 bits.
abbrev pub half8 : ℕ
half8 = 128

abbrev pub half16 : ℕ
half16 = 32768

abbrev pub half32 : ℕ
half32 = 2147483648

abbrev pub half64 : ℕ
half64 = 9223372036854775808

abbrev pub size8 : ℕ
size8 = 256

abbrev pub size16 : ℕ
size16 = 65536

abbrev pub size32 : ℕ
size32 = 4294967296

abbrev pub size64 : ℕ
size64 = 18446744073709551616

pub data Value (h : Host) : Type 0 where
  nil : Value h
  string : Text → Value h
  bool : Bool → Value h
  int int8 int16 int32 int64 : ℤ → Value h
  uint uint8 uint16 uint32 uint64 : ℕ → Value h
  float32 : h.Float32 → Value h
  float64 : h.Float64 → Value h
  object : h.Object → Value h

-- An integer lies in the range of its type.
abbrev pub IsValid : {h : Host} → Value h → Type 0
IsValid (int v) = InSigned half64 v
IsValid (int8 v) = InSigned half8 v
IsValid (int16 v) = InSigned half16 v
IsValid (int32 v) = InSigned half32 v
IsValid (int64 v) = InSigned half64 v
IsValid (uint v) = v < size64
IsValid (uint8 v) = v < size8
IsValid (uint16 v) = v < size16
IsValid (uint32 v) = v < size32
IsValid (uint64 v) = v < size64
IsValid _ = Unit

-- The integer that a value is, where it is one.
abbrev pub numeric : {h : Host} → Value h → Option ℤ
numeric (int v) = some v
numeric (int8 v) = some v
numeric (int16 v) = some v
numeric (int32 v) = some v
numeric (int64 v) = some v
numeric (uint v) = some (pos v)
numeric (uint8 v) = some (pos v)
numeric (uint16 v) = some (pos v)
numeric (uint32 v) = some (pos v)
numeric (uint64 v) = some (pos v)
numeric _ = none

pub record Entry (h : Host) : Type 0 where
  pub key : Text
  pub value_raw : Value h
  pub immutable : Bool

-- reflect.Kind, as far as the package names it
pub data Kind : Type 0 where
  invalid bool_kind int_kind int8_kind int16_kind int32_kind int64_kind : Kind
  uint_kind uint8_kind uint16_kind uint32_kind uint64_kind : Kind
  float32_kind float64_kind string_kind : Kind

pub Kind-discrete : Discrete Kind
Kind-discrete = hlevel

pub record ErrEntryNotFound : Type 0 where
  pub key : Text
  pub kind : Kind

-- The errors of the package: its own, and those of strconv.
pub data Err : Type 0 where
  entry_not_found : ErrEntryNotFound → Err
  num_error : NumError → Err

abbrev pub not_found : {h : Host} → Entry h → Kind → Option Err
not_found e kind = some (entry_not_found (record { key = e.key; kind = kind }))

abbrev pub kind_matches : Kind → Kind → Bool
kind_matches want kind = elim (Kind-discrete want kind) [ yes _ ↦ true | no _ ↦ false ]

-- The method As of ErrEntryNotFound: `none` is a target of another type.
unfoldable pub as_target : ErrEntryNotFound → Option ErrEntryNotFound → Bool
unfolding eqb
as_target e none = false
as_target e (some v) =
    if not (eqb v.key []) && not (eqb v.key e.key)
    then false
    else if not (kind_matches v.kind invalid) && not (kind_matches v.kind e.kind)
    then false
    else true

-- fmt.Sprintf("%v", v)
unfoldable pub sprint : {h : Host} → Value h → Text
unfolding itoa
sprint nil = bytes "<nil>"
sprint (string s) = s
sprint (bool true) = bytes "true"
sprint (bool false) = bytes "false"
sprint (int v) = itoa v
sprint (int8 v) = itoa v
sprint (int16 v) = itoa v
sprint (int32 v) = itoa v
sprint (int64 v) = itoa v
sprint (uint v) = itoa (pos v)
sprint (uint8 v) = itoa (pos v)
sprint (uint16 v) = itoa (pos v)
sprint (uint32 v) = itoa (pos v)
sprint (uint64 v) = itoa (pos v)
sprint {h} (float32 v) = h.sprint_float32 v
sprint {h} (float64 v) = h.sprint_float64 v
sprint {h} (object v) = h.sprint_object v

abbrev pub text_or : Text → Text → Text
text_or [] default = default
text_or (c ∷ cs) default = c ∷ cs

string_of : {h : Host} → Value h → Text → Text
string_of nil default = default
string_of (string s) default = s
string_of v default = text_or (sprint v) default

unfoldable pub string_default : {h : Host} → Entry h → Text → Text
unfolding string_of
string_default e default = string_of e.value_raw default

unfoldable pub entry_string : {h : Host} → Entry h → Text
unfolding string_default
entry_string e = string_default e []
