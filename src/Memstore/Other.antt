-- ===== src/Memstore/Other.antt =====
-- The remaining conversions of an entry: floating-point numbers, booleans, a kind, and the value.
use openscraper_framework.Prelude.{zero, Bool, false, Option, none, some, ◌==◌, if◌then◌else◌}
use openscraper_framework.Prelude.Int.{ℤ, pos, negsuc}
use openscraper_framework.Prelude.Text.{Text, bytes, eqb}
use openscraper_framework.Strconv.{NumError, parse_bool}
use openscraper_framework.Memstore.Value.{
  Host, Value, nil, string, bool, int, int64, uint, uint64, float32, float64, object, Entry, Kind,
  bool_kind, int_kind, int64_kind, float32_kind, float64_kind, string_kind, Err, num_error,
  not_found, string_default,
}
use openscraper_framework.Memstore.Signed.{or_default, int_default, int64_default}

-- `if val > math.MaxFloat32 { return def, notFound }; return float32(val)`
narrowed : {h : Host} → Entry h → h.Float64 → h.Float32 → h.Float32 × Option Err
narrowed {h} e v default =
    if h.above_max_float32 v then (default, not_found e float32_kind) else (h.narrow v, none)

narrowed_parse :
    {h : Host} → Entry h → h.Float64 × Option NumError → h.Float32 → h.Float32 × Option Err
narrowed_parse e (v, some err) default = (default, some (num_error err))
narrowed_parse e (v, none) default = narrowed e v default

float32_of : {h : Host} → Entry h → Value h → h.Float32 → h.Float32 × Option Err
unfolding narrowed narrowed_parse
float32_of e nil default = (default, not_found e float32_kind)
float32_of {h} e (string s) default = narrowed_parse e (h.parse_float_32 s) default
float32_of e (float32 v) default = (v, none)
float32_of e (float64 v) default = narrowed e v default
float32_of {h} e (int v) default = (h.float32_of v, none)
float32_of e _ default = (default, not_found e float32_kind)

-- The source's `key` parameter is not used.
unfoldable pub float32_default : {h : Host} → Entry h → Text → h.Float32 → h.Float32 × Option Err
unfolding float32_of
float32_default e key default = float32_of e e.value_raw default

float64_of : {h : Host} → Entry h → Value h → h.Float64 → h.Float64 × Option Err
float64_of e nil default = (default, not_found e float64_kind)
float64_of {h} e (string s) default = or_default (h.parse_float s) default
float64_of {h} e (float32 v) default = (h.widen v, none)
float64_of e (float64 v) default = (v, none)
float64_of {h} e (int v) default = (h.float64_of v, none)
float64_of {h} e (int64 v) default = (h.float64_of v, none)
float64_of {h} e (uint v) default = (h.float64_of (pos v), none)
float64_of {h} e (uint64 v) default = (h.float64_of (pos v), none)
float64_of e _ default = (default, not_found e float64_kind)

unfoldable pub float64_default : {h : Host} → Entry h → h.Float64 → h.Float64 × Option Err
unfolding float64_of
float64_default e default = float64_of e e.value_raw default

abbrev pub is_one : ℤ → Bool
is_one (pos n) = n == 1
is_one (negsuc n) = false

bool_of : {h : Host} → Entry h → Value h → Bool → Bool × Option Err
unfolding parse_bool
bool_of e nil default = (default, not_found e bool_kind)
bool_of e (string s) default = or_default (parse_bool s) default
bool_of e (bool v) default = (v, none)
bool_of e (int v) default = (is_one v, none)
bool_of e _ default = (default, not_found e bool_kind)

unfoldable pub bool_default : {h : Host} → Entry h → Bool → Bool × Option Err
unfolding bool_of
bool_default e default = bool_of e e.value_raw default

-- The answer of GetByKindOrNil for an integer: nil on an error, and for -1 too.
integer_or_nil : {h : Host} → (ℤ → Value h) → ℤ × Option Err → Value h
integer_or_nil make (v, some err) = nil
integer_or_nil make (negsuc zero, none) = nil
integer_or_nil make (v, none) = make v

bool_or_nil : {h : Host} → Bool × Option Err → Value h
bool_or_nil (v, some err) = nil
bool_or_nil (v, none) = bool v

abbrev pub not_a_string : Text
not_a_string = bytes "__$nf"

unfoldable pub get_by_kind_or_nil : {h : Host} → Entry h → Kind → Value h
unfolding string_default eqb integer_or_nil bool_or_nil int_default int64_default bool_default
get_by_kind_or_nil e string_kind =
    let v = string_default e not_a_string in if eqb v not_a_string then nil else string v
get_by_kind_or_nil e int_kind = integer_or_nil int (int_default e (negsuc 0))
get_by_kind_or_nil e int64_kind = integer_or_nil int64 (int64_default e (negsuc 0))
get_by_kind_or_nil e bool_kind = bool_or_nil (bool_default e false)
get_by_kind_or_nil e _ = e.value_raw

-- Value: an immutable entry gives a copy, which the section's parameter makes of an object (a
-- slice, a map, what a pointer points to). `none` is the panic of reflect on nil.
module _ {h : Host} (copy : h.Object → Option (Value h)) where
  immutable_value : Value h → Option (Value h)
  immutable_value nil = none
  immutable_value (object o) = copy o
  immutable_value v = some v

  unfoldable pub entry_value : Entry h → Option (Value h)
  unfolding immutable_value
  entry_value e = if e.immutable then immutable_value e.value_raw else some e.value_raw
