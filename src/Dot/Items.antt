-- ===== src/Dot/Items.antt =====
-- Item of dot/item.go: a map from strings to values of any type, with conversions that never fail. An int
-- has 64 bits. Floating-point numbers, the other types and the printing of both are parameters.
pub mod Defaults
use openscraper_framework.Prelude.{
  ℕ, zero, suc, Bool, true, false, not, Option, none, some, List, [], ◌∷◌, ltb, length,
  if◌then◌else◌,
}
use openscraper_framework.Prelude.Int.{ℤ, pos, negsuc, ltb_ℤ}
use openscraper_framework.Prelude.Text.{Text, bytes}
use openscraper_framework.Prelude.Dict
use openscraper_framework.Prelude.Dict.{Dict}
use openscraper_framework.Strconv.{NumError, parse_int, itoa}
use openscraper_framework.Memstore.Value.{half64}

-- `integer_of` is the conversion of a float64 to an int or int64.
pub record Floats : Type 1 where
  pub Float64 : Type 0
  pub Object : Type 0
  pub integer_of : Float64 → ℤ
  pub float_of : ℤ → Float64
  pub is_positive : Float64 → Bool
  pub parse_float : Text → Float64 × Option NumError
  pub sprint_float : Float64 → Text
  pub sprint_object : Object → Text

pub data Any (f : Floats) : Type 0 where
  string : Text → Any f
  float64 : f.Float64 → Any f
  int : ℤ → Any f
  int64 : ℤ → Any f
  json_number : Text → Any f
  jsoniter_number : Text → Any f
  bool : Bool → Any f
  object : f.Object → Any f

abbrev pub Item : Floats → Type 0
Item f = Dict (Any f)

-- An error of ParseInt is logged, and the value is 0.
abbrev parsed : ℤ × Option NumError → ℤ
parsed (n, none) = n
parsed (n, some e) = pos 0

abbrev float_parsed : (f : Floats) → f.Float64 × Option NumError → f.Float64
float_parsed f (x, none) = x
float_parsed f (x, some e) = f.float_of (pos 0)

module _ {f : Floats} where
  -- fmt.Sprintf("%v", v) for a value that is no string
  abbrev pub sprint : Any f → Text
  sprint (string s) = s
  sprint (float64 x) = f.sprint_float x
  sprint (int n) = itoa n
  sprint (int64 n) = itoa n
  sprint (json_number s) = s
  sprint (jsoniter_number s) = s
  sprint (bool true) = bytes "true"
  sprint (bool false) = bytes "false"
  sprint (object o) = f.sprint_object o

  abbrev string_of : Option (Any f) → Text
  string_of none = []
  string_of (some v) = sprint v

  unfoldable pub get_string : Item f → Text → Text
  get_string item key = string_of (Dict.get key item)

  abbrev int_of : Option (Any f) → ℤ
  int_of none = pos 0
  int_of (some (string s)) = parsed (parse_int half64 s)
  int_of (some (float64 x)) = f.integer_of x
  int_of (some (int n)) = n
  int_of (some (int64 n)) = n
  int_of (some (json_number s)) = parsed (parse_int half64 s)
  int_of (some (jsoniter_number s)) = parsed (parse_int half64 s)
  int_of (some _) = pos 0

  unfoldable pub get_int : Item f → Text → ℤ
  get_int item key = int_of (Dict.get key item)

  -- The same cases, with the conversions between int and int64, which keep the value.
  abbrev int64_of : Option (Any f) → ℤ
  int64_of none = pos 0
  int64_of (some (string s)) = parsed (parse_int half64 s)
  int64_of (some (float64 x)) = f.integer_of x
  int64_of (some (int n)) = n
  int64_of (some (int64 n)) = n
  int64_of (some (json_number s)) = parsed (parse_int half64 s)
  int64_of (some (jsoniter_number s)) = parsed (parse_int half64 s)
  int64_of (some _) = pos 0

  unfoldable pub get_int64 : Item f → Text → ℤ
  get_int64 item key = int64_of (Dict.get key item)

  abbrev float64_of : Option (Any f) → f.Float64
  float64_of none = f.float_of (pos 0)
  float64_of (some (string s)) = float_parsed f (f.parse_float s)
  float64_of (some (float64 x)) = x
  float64_of (some (int n)) = f.float_of n
  float64_of (some (int64 n)) = f.float_of n
  float64_of (some (json_number s)) = float_parsed f (f.parse_float s)
  float64_of (some (jsoniter_number s)) = float_parsed f (f.parse_float s)
  float64_of (some _) = f.float_of (pos 0)

  unfoldable pub get_float64 : Item f → Text → f.Float64
  get_float64 item key = float64_of (Dict.get key item)

  abbrev bool_of : Option (Any f) → Bool
  bool_of none = false
  bool_of (some (string s)) = ltb 0 (length s)
  bool_of (some (float64 x)) = f.is_positive x
  bool_of (some (int n)) = ltb_ℤ (pos 0) n
  bool_of (some (int64 n)) = ltb_ℤ (pos 0) n
  bool_of (some (bool b)) = b
  bool_of (some _) = false

  unfoldable pub get_bool : Item f → Text → Bool
  get_bool item key = bool_of (Dict.get key item)

  unfoldable pub set_value : Text → Any f → Item f → Item f
  set_value key v item = Dict.put key v item

  -- The default of an Or method is what its function returns, and is kept in the map.
  string_or : Text → Text → Item f → Option (Any f) → Item f × Text
  string_or key default item none = (Dict.put key (string default) item, default)
  string_or key default item (some v) = (item, sprint v)

  unfoldable pub get_string_or : Text → Text → Item f → Item f × Text
  unfolding string_or
  get_string_or key default item = string_or key default item (Dict.get key item)

  int_or : Text → ℤ → Item f → Option (Any f) → Item f × ℤ
  int_or key default item none = (Dict.put key (int default) item, default)
  int_or key default item (some v) = (item, get_int item key)

  unfoldable pub get_int_or : Text → ℤ → Item f → Item f × ℤ
  unfolding int_or
  get_int_or key default item = int_or key default item (Dict.get key item)

  int64_or : Text → ℤ → Item f → Option (Any f) → Item f × ℤ
  int64_or key default item none = (Dict.put key (int64 default) item, default)
  int64_or key default item (some v) = (item, get_int64 item key)

  unfoldable pub get_int64_or : Text → ℤ → Item f → Item f × ℤ
  unfolding int64_or
  get_int64_or key default item = int64_or key default item (Dict.get key item)

  -- Clone puts each pair into a new map.
  copied : Item f → Item f → Item f
  copied [] new = new
  copied ((key, v) ∷ item) new = copied item (Dict.put key v new)

  unfoldable pub clone : Item f → Item f
  unfolding copied
  clone item = copied item []
