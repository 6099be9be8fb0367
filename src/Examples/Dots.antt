-- ===== src/Examples/Dots.antt =====
-- Items with a few values, and a writer over a service that accepts everything.
use openscraper_framework.Prelude.{
  ℕ, ◌<◌, true, false, none, List, [], ◌∷◌, ◌++◌, All, length, ◌≡◌, refl, arith, Option,
}
use openscraper_framework.Prelude.Int.{ℤ, pos}
use openscraper_framework.Prelude.Text.{bytes}
use openscraper_framework.Prelude.Batches.{concat}
use openscraper_framework.Strconv.{itoa}
use openscraper_framework.Dot.MqWriter.{
  MqWriter, new_mq_writer, Event, adds, receives, ticks, cancels, flush_loop, accepted, put, answer,
}
use openscraper_framework.Dot.MqWriter.Flushing.{flush_loop_lem, flush_loop-cancels}
use openscraper_framework.Dot.Items.{
  Floats, string, int, json_number, jsoniter_number, Item, get_int, get_int64, get_string, get_bool,
  set_value,
}
use openscraper_framework.Dot.Items.Defaults.{get_int-get_string, get_bool-json_number}

abbrev accepts : List ℕ → Option ℕ
accepts items = none

abbrev traffic : List (Event ℕ)
traffic = adds 1 ∷ adds 2 ∷ receives ∷ ticks ∷ adds 3 ∷ receives ∷ cancels ∷ adds 4 ∷ receives ∷ []

flushed : flush_loop traffic new_mq_writer ≡ record {
  operations = 3 ∷ 4 ∷ [];
  items = [];
  puts = (1 ∷ []) ∷ (2 ∷ []) ∷ [];
  returned = true;
}
unfolding flush_loop
flushed = refl

flush_loop_lem_example :
    let w = flush_loop traffic new_mq_writer in
    (concat w.puts ++ (w.items ++ w.operations) ≡ accepted traffic new_mq_writer)
    × All (λ b. (0 < length b) × (put accepts (bytes "t") (pos 5) b ≡ answer (accepts b))) w.puts
flush_loop_lem_example = flush_loop_lem accepts (bytes "t") (pos 5) traffic refl refl refl

abbrev half_done : MqWriter ℕ
half_done = record { operations = 3 ∷ []; items = 2 ∷ []; puts = []; returned = false }

flush_loop-cancels_example :
    (flush_loop (cancels ∷ receives ∷ ticks ∷ []) half_done).puts ≡ (2 ∷ []) ∷ []
flush_loop-cancels_example = flush_loop-cancels (receives ∷ ticks ∷ []) half_done refl

-- A float64 that is a whole number.
abbrev whole : Floats
whole = record {
  Float64 = ℤ;
  Object = Unit;
  integer_of = λ x. x;
  float_of = λ x. x;
  is_positive = λ x. false;
  parse_float = λ s. (pos 0, none);
  sprint_float = itoa;
  sprint_object = λ o. [];
}

abbrev no_items : Item whole
no_items = (bytes "b", int (pos 3)) ∷ []

get_int-get_string_example :
    let s = get_string (set_value (bytes "a") (int (pos 42)) no_items) (bytes "a") in
    (get_int (set_value (bytes "a") (string s) no_items) (bytes "a") ≡ pos 42)
    × (get_int (set_value (bytes "a") (json_number s) no_items) (bytes "a") ≡ pos 42)
    × (get_int (set_value (bytes "a") (jsoniter_number s) no_items) (bytes "a") ≡ pos 42)
    × (get_int64 (set_value (bytes "a") (string s) no_items) (bytes "a") ≡ pos 42)
    × (get_int64 (set_value (bytes "a") (json_number s) no_items) (bytes "a") ≡ pos 42)
    × (get_int64 (set_value (bytes "a") (jsoniter_number s) no_items) (bytes "a") ≡ pos 42)
get_int-get_string_example = get_int-get_string (bytes "a") (pos 42) no_items (omega arith)

get_bool-json_number_example :
    let read = set_value (bytes "a") (json_number (itoa (pos 1))) no_items in
    let iter = set_value (bytes "a") (jsoniter_number (itoa (pos 1))) no_items in
    (get_int read (bytes "a") ≡ pos 1)
    × (get_bool read (bytes "a") ≡ false)
    × (get_int iter (bytes "a") ≡ pos 1)
    × (get_bool iter (bytes "a") ≡ false)
    × (get_bool (set_value (bytes "a") (int (get_int read (bytes "a"))) no_items) (bytes "a")
        ≡ true)
get_bool-json_number_example = get_bool-json_number (bytes "a") (pos 1) no_items (omega arith) refl
