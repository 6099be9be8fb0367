-- ===== src/Examples/Hosts.antt =====
-- A host with one floating-point number and one object, and some entries of its values.
use openscraper_framework.Prelude.{false, none, []}
use openscraper_framework.Prelude.Text.{bytes}
use openscraper_framework.Memstore.Value.{Host, Value, Entry}

abbrev pub unit_host : Host
unit_host = record {
  Float32 = Unit;
  Float64 = Unit;
  Object = Unit;
  sprint_float32 = λ x. [];
  sprint_float64 = λ x. [];
  sprint_object = λ x. [];
  parse_float = λ t. (tt, none);
  parse_float_32 = λ t. (tt, none);
  above_max_float32 = λ x. false;
  narrow = λ x. tt;
  widen = λ x. tt;
  float32_of = λ z. tt;
  float64_of = λ z. tt;
}

abbrev pub holding : Value unit_host → Entry unit_host
holding v = record { key = bytes "a"; value_raw = v; immutable = false }
