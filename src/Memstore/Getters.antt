-- ===== src/Memstore/Getters.antt =====
-- The typed lookups of a store. Each pair is a lookup with an error, and one with a default.
pub mod Laws
use openscraper_framework.Prelude.{ℕ, zero, Bool, true, false, Option, none, some, List, [], ◌∷◌}
use openscraper_framework.Prelude.Int.{ℤ, pos, negsuc}
use openscraper_framework.Prelude.Text.{Text}
use openscraper_framework.Memstore.Value.{
  Host, Value, nil, Entry, int_kind, int8_kind, int16_kind, int32_kind, int64_kind, uint_kind,
  uint8_kind, uint16_kind, uint32_kind, uint64_kind, float64_kind, bool_kind, Err, not_found,
  string_default,
}
use openscraper_framework.Memstore.Signed.{
  int_default, int8_default, int16_default, int32_default, int64_default,
}
use openscraper_framework.Memstore.Unsigned.{
  uint_default, uint8_default, uint16_default, uint32_default, uint64_default,
}
use openscraper_framework.Memstore.Other.{float64_default, bool_default, entry_value}
use openscraper_framework.Memstore.Store.{Store, entries, get_entry}

-- `if !ok { return zero, notFound }`, then the conversion. The entry of a failed lookup is the empty
-- entry, and the error names that entry's key.
abbrev converted : {A : Type 0} → Bool → A × Option Err → A × Option Err → A × Option Err
converted true result missing = result
converted false result missing = missing

-- `if v, err := …; err == nil { return v }; return def`
abbrev accepted : {A : Type 0} → A × Option Err → A → A
accepted (v, none) default = v
accepted (v, some err) default = default

abbrev minus_one : ℤ
minus_one = negsuc 0

unfoldable pub get_int : {h : Host} → Store h → Text → ℤ × Option Err
get_int s key =
    let (v, found) = get_entry s key in
    converted found (int_default v minus_one) (pos 0, not_found v int_kind)

unfoldable pub get_int_default : {h : Host} → Store h → Text → ℤ → ℤ
unfolding get_int
get_int_default s key default = accepted (get_int s key) default

unfoldable pub get_int8 : {h : Host} → Store h → Text → ℤ × Option Err
get_int8 s key =
    let (v, found) = get_entry s key in
    converted found (int8_default v minus_one) (minus_one, not_found v int8_kind)

unfoldable pub get_int8_default : {h : Host} → Store h → Text → ℤ → ℤ
unfolding get_int8
get_int8_default s key default = accepted (get_int8 s key) default

unfoldable pub get_int16 : {h : Host} → Store h → Text → ℤ × Option Err
get_int16 s key =
    let (v, found) = get_entry s key in
    converted found (int16_default v minus_one) (minus_one, not_found v int16_kind)

unfoldable pub get_int16_default : {h : Host} → Store h → Text → ℤ → ℤ
unfolding get_int16
get_int16_default s key default = accepted (get_int16 s key) default

unfoldable pub get_int32 : {h : Host} → Store h → Text → ℤ × Option Err
get_int32 s key =
    let (v, found) = get_entry s key in
    converted found (int32_default v minus_one) (minus_one, not_found v int32_kind)

unfoldable pub get_int32_default : {h : Host} → Store h → Text → ℤ → ℤ
unfolding get_int32
get_int32_default s key default = accepted (get_int32 s key) default

unfoldable pub get_int64 : {h : Host} → Store h → Text → ℤ × Option Err
get_int64 s key =
    let (v, found) = get_entry s key in
    converted found (int64_default v minus_one) (minus_one, not_found v int64_kind)

unfoldable pub get_int64_default : {h : Host} → Store h → Text → ℤ → ℤ
unfolding get_int64
get_int64_default s key default = accepted (get_int64 s key) default

unfoldable pub get_uint : {h : Host} → Store h → Text → ℕ × Option Err
get_uint s key =
    let (v, found) = get_entry s key in
    converted found (uint_default v 0) (0, not_found v uint_kind)

unfoldable pub get_uint_default : {h : Host} → Store h → Text → ℕ → ℕ
unfolding get_uint
get_uint_default s key default = accepted (get_uint s key) default

unfoldable pub get_uint8 : {h : Host} → Store h → Text → ℕ × Option Err
get_uint8 s key =
    let (v, found) = get_entry s key in
    converted found (uint8_default v 0) (0, not_found v uint8_kind)

unfoldable pub get_uint8_default : {h : Host} → Store h → Text → ℕ → ℕ
unfolding get_uint8
get_uint8_default s key default = accepted (get_uint8 s key) default

unfoldable pub get_uint16 : {h : Host} → Store h → Text → ℕ × Option Err
get_uint16 s key =
    let (v, found) = get_entry s key in
    converted found (uint16_default v 0) (0, not_found v uint16_kind)

unfoldable pub get_uint16_default : {h : Host} → Store h → Text → ℕ → ℕ
unfolding get_uint16
get_uint16_default s key default = accepted (get_uint16 s key) default

unfoldable pub get_uint32 : {h : Host} → Store h → Text → ℕ × Option Err
get_uint32 s key =
    let (v, found) = get_entry s key in
    converted found (uint32_default v 0) (0, not_found v uint32_kind)

unfoldable pub get_uint32_default : {h : Host} → Store h → Text → ℕ → ℕ
unfolding get_uint32
get_uint32_default s key default = accepted (get_uint32 s key) default

unfoldable pub get_uint64 : {h : Host} → Store h → Text → ℕ × Option Err
get_uint64 s key =
    let (v, found) = get_entry s key in
    converted found (uint64_default v 0) (0, not_found v uint64_kind)

unfoldable pub get_uint64_default : {h : Host} → Store h → Text → ℕ → ℕ
unfolding get_uint64
get_uint64_default s key default = accepted (get_uint64 s key) default

unfoldable pub get_bool : {h : Host} → Store h → Text → Bool × Option Err
get_bool s key =
    let (v, found) = get_entry s key in
    converted found (bool_default v false) (false, not_found v bool_kind)

unfoldable pub get_bool_default : {h : Host} → Store h → Text → Bool → Bool
unfolding get_bool
get_bool_default s key default = accepted (get_bool s key) default

unfoldable pub get_float64 : {h : Host} → Store h → Text → h.Float64 × Option Err
get_float64 {h} s key =
    let (v, found) = get_entry s key in
    converted found (float64_default v (h.float64_of minus_one))
      (h.float64_of minus_one, not_found v float64_kind)

unfoldable pub get_float64_default : {h : Host} → Store h → Text → h.Float64 → h.Float64
unfolding get_float64
get_float64_default s key default = accepted (get_float64 s key) default

abbrev text_of : Bool → Text → Text → Text
text_of true v default = v
text_of false v default = default

unfoldable pub get_string_default : {h : Host} → Store h → Text → Text → Text
get_string_default s key default =
    let (v, found) = get_entry s key in text_of found (string_default v default) default

unfoldable pub get_string : {h : Host} → Store h → Text → Text
unfolding get_string_default
get_string s key = get_string_default s key []

-- GetDefault, Get and Visit respect immutability: they take the copy of Value, which may panic.
module _ {h : Host} (copy : h.Object → Option (Value h)) where
  abbrev value_or : Option (Value h) → Value h → Option (Value h)
  value_or none default = none
  value_or (some nil) default = some default
  value_or (some v) default = some v

  default_of : Entry h → Bool → Value h → Value h → Option (Value h)
  default_of v false raw default = some default
  default_of v true nil default = some default
  default_of v true raw default = value_or (entry_value copy v) default

  unfoldable pub get_default : Store h → Text → Value h → Option (Value h)
  unfolding default_of
  get_default s key default =
      let (v, found) = get_entry s key in default_of v found v.value_raw default

  unfoldable pub get : Store h → Text → Option (Value h)
  unfolding get_default
  get s key = get_default s key nil

  -- The calls that the visitor gets, in order, and whether the loop came to its end.
  visit_from : List (Entry h) → List (Text × Value h) × Bool
  visit_from [] = ([], true)
  visit_from (kv ∷ kvs) =
      let (calls, done) = visit_from kvs in
      elim (entry_value copy kv) [ none ↦ ([], false) | some v ↦ ((kv.key, v) ∷ calls, done) ]

  unfoldable pub visit : Store h → List (Text × Value h) × Bool
  unfolding visit_from
  visit s = visit_from (entries s)
