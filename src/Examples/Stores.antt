-- ===== src/Examples/Stores.antt =====
-- A store of two entries in an array of three slots.
use openscraper_framework.Prelude.{ℕ, suc, true, false, none, List, [], ◌∷◌, ◌≡◌, refl, arith}
use openscraper_framework.Prelude.Int.{pos, negsuc}
use openscraper_framework.Prelude.Text.{bytes, eqb}
use openscraper_framework.Memstore.Value.{
  nil, int, int8, int16, int32, int64, uint, uint8, uint16, uint32, uint64, bool, string, Entry,
}
use openscraper_framework.Memstore.Store.{Store, empty_entry, overwrite, set_value, get_entry}
use openscraper_framework.Memstore.Store.Spec.{lookup}
use openscraper_framework.Memstore.Store.Refines.{get_entry-refines}
use openscraper_framework.Memstore.Store.Laws.{IsStore, set_value-immutable}
use openscraper_framework.Memstore.Store.Run.{Op, save_op, remove_op, run, run_model, get_entry-run}
use openscraper_framework.Memstore.Getters.{
  get_int, get_int8, get_int16, get_int32, get_int64, get_uint, get_uint8, get_uint16, get_uint32,
  get_uint64, get_bool, get_string,
}
use openscraper_framework.Memstore.Getters.Laws.{get-set_value}
use openscraper_framework.Examples.Hosts.{unit_host}

abbrev doubled : ℕ → ℕ
doubled n = suc n

abbrev first_entry : Entry unit_host
first_entry = record { key = bytes "a"; value_raw = int (pos 1); immutable = true }

abbrev second_entry : Entry unit_host
second_entry = record { key = bytes "b"; value_raw = bool true; immutable = false }

abbrev two_entries : Store unit_host
two_entries = record { buf = first_entry ∷ second_entry ∷ empty_entry ∷ []; len = 2 }

two_entries-IsStore : IsStore two_entries
unfolding lookup eqb
two_entries-IsStore = record { slice = omega arith; unique = (refl, (refl, tt)) }

-- A full array grows, a removed key comes back behind, and an immutable entry stays.
abbrev calls : List (Op unit_host)
calls =
    save_op (bytes "c") nil false
    ∷ save_op (bytes "d") (string []) true
    ∷ remove_op (bytes "b")
    ∷ save_op (bytes "a") nil false
    ∷ save_op (bytes "b") (uint 7) false
    ∷ []

get_entry-run_example :
    get_entry (run doubled two_entries calls) (bytes "b")
    ≡ (record { key = bytes "b"; value_raw = uint 7; immutable = false }, true)
unfolding run_model lookup overwrite eqb
get_entry-run_example = get_entry-run doubled two_entries calls (bytes "b") two_entries-IsStore

set_value-immutable_example :
    (get_entry (set_value doubled two_entries (bytes "a") nil).0 (bytes "b")
      ≡ get_entry two_entries (bytes "b"))
    × ((set_value doubled two_entries (bytes "a") nil).1 ≡ first_entry)
    × ((set_value doubled two_entries (bytes "a") nil).2 ≡ false)
unfolding lookup eqb
set_value-immutable_example =
    set_value-immutable doubled two_entries (bytes "a") (bytes "b") nil first_entry (omega arith)
      (get_entry-refines two_entries (bytes "a")) refl

get-set_value_example :
    (get_int (set_value doubled two_entries (bytes "b") (int (negsuc 4))).0 (bytes "b")
      ≡ (negsuc 4, none))
    × (get_int8 (set_value doubled two_entries (bytes "b") (int8 (negsuc 4))).0 (bytes "b")
        ≡ (negsuc 4, none))
    × (get_int16 (set_value doubled two_entries (bytes "b") (int16 (negsuc 4))).0 (bytes "b")
        ≡ (negsuc 4, none))
    × (get_int32 (set_value doubled two_entries (bytes "b") (int32 (negsuc 4))).0 (bytes "b")
        ≡ (negsuc 4, none))
    × (get_int64 (set_value doubled two_entries (bytes "b") (int64 (negsuc 4))).0 (bytes "b")
        ≡ (negsuc 4, none))
    × (get_uint (set_value doubled two_entries (bytes "b") (uint 9)).0 (bytes "b") ≡ (9, none))
    × (get_uint8 (set_value doubled two_entries (bytes "b") (uint8 9)).0 (bytes "b") ≡ (9, none))
    × (get_uint16 (set_value doubled two_entries (bytes "b") (uint16 9)).0 (bytes "b") ≡ (9, none))
    × (get_uint32 (set_value doubled two_entries (bytes "b") (uint32 9)).0 (bytes "b") ≡ (9, none))
    × (get_uint64 (set_value doubled two_entries (bytes "b") (uint64 9)).0 (bytes "b") ≡ (9, none))
    × (get_bool (set_value doubled two_entries (bytes "b") (bool false)).0 (bytes "b")
        ≡ (false, none))
    × (get_string (set_value doubled two_entries (bytes "b") (string (bytes "xy"))).0 (bytes "b")
        ≡ bytes "xy")
unfolding lookup eqb
get-set_value_example =
    get-set_value doubled two_entries (bytes "b") (bytes "xy") (negsuc 4) 9 false (omega arith)
      (rw get_entry-refines)
