-- ===== src/Memstore/Getters/Laws.antt =====
-- What the typed lookups return after a Set, and of a missing key.
use openscraper_framework.Prelude.{
  ℕ, Bool, true, false, Option, none, some, List, [], ◌∷◌, ◌≡◌, ◌≢◌, refl, arith,
}
use openscraper_framework.Prelude.Int.{ℤ}
use openscraper_framework.Prelude.Text.{Text, eqb_iff}
use openscraper_framework.Memstore.Value.{
  Host, Value, nil, string, bool, int, int8, int16, int32, int64, uint, uint8, uint16, uint32,
  uint64, Entry, Kind, Err, string_default, entry_not_found, as_target, invalid, num_error,
  int_kind, int64_kind, uint_kind,
}
use openscraper_framework.Memstore.Store.{
  Store, IsSlice, entries, set_value, set_immutable, get_entry, empty_entry,
}
use openscraper_framework.Memstore.Store.Spec.{lookup, found_or_empty}
use openscraper_framework.Memstore.Store.Refines.{get_entry-refines}
use openscraper_framework.Memstore.Store.Laws.{set_value-get_entry, set_immutable-get_entry}
use openscraper_framework.Memstore.Signed.{
  int_default, int8_default, int16_default, int32_default, int64_default,
}
use openscraper_framework.Memstore.Unsigned.{
  uint_default, uint8_default, uint16_default, uint32_default, uint64_default,
}
use openscraper_framework.Memstore.Other.{bool_default, entry_value}
use openscraper_framework.Memstore.Getters.{
  get_int, get_int8, get_int16, get_int32, get_int64, get_uint, get_uint8, get_uint16, get_uint32,
  get_uint64, get_bool, get_string, get, visit, visit_from,
}

-- What a Set on a slice stores is what the lookup of its own type returns with no error, for the ten integer
-- types, bool and string, unless the key holds an immutable entry.
pub get-set_value :
    {h : Host} (grow : ℕ → ℕ) (s : Store h) (key t : Text) (z : ℤ) (n : ℕ) (b : Bool)
    → IsSlice s
    → (get_entry s key).0.immutable ≡ false
    → (get_int (set_value grow s key (int z)).0 key ≡ (z, none))
      × (get_int8 (set_value grow s key (int8 z)).0 key ≡ (z, none))
      × (get_int16 (set_value grow s key (int16 z)).0 key ≡ (z, none))
      × (get_int32 (set_value grow s key (int32 z)).0 key ≡ (z, none))
      × (get_int64 (set_value grow s key (int64 z)).0 key ≡ (z, none))
      × (get_uint (set_value grow s key (uint n)).0 key ≡ (n, none))
      × (get_uint8 (set_value grow s key (uint8 n)).0 key ≡ (n, none))
      × (get_uint16 (set_value grow s key (uint16 n)).0 key ≡ (n, none))
      × (get_uint32 (set_value grow s key (uint32 n)).0 key ≡ (n, none))
      × (get_uint64 (set_value grow s key (uint64 n)).0 key ≡ (n, none))
      × (get_bool (set_value grow s key (bool b)).0 key ≡ (b, none))
      × (get_string (set_value grow s key (string t)).0 key ≡ t)
unfolding get_int get_int8 get_int16 get_int32 get_int64 get_uint get_uint8 get_uint16 get_uint32
    get_uint64 get_bool get_string int_default int8_default int16_default int32_default
    int64_default uint_default uint8_default uint16_default uint32_default uint64_default
    bool_default string_default
get-set_value grow s key t z n b ok i = (
  rw (set_value-get_entry grow s key (int z) ok i),
  rw (set_value-get_entry grow s key (int8 z) ok i),
  rw (set_value-get_entry grow s key (int16 z) ok i),
  rw (set_value-get_entry grow s key (int32 z) ok i),
  rw (set_value-get_entry grow s key (int64 z) ok i),
  rw (set_value-get_entry grow s key (uint n) ok i),
  rw (set_value-get_entry grow s key (uint8 n) ok i),
  rw (set_value-get_entry grow s key (uint16 n) ok i),
  rw (set_value-get_entry grow s key (uint32 n) ok i),
  rw (set_value-get_entry grow s key (uint64 n) ok i),
  rw (set_value-get_entry grow s key (bool b) ok i),
  rw (set_value-get_entry grow s key (string t) ok i),
)

-- Whether an error, which may be nil, is one about a missing entry of this key: its method As with
-- the target &ErrEntryNotFound{Key: key}.
abbrev pub is_missing : Option Err → Text → Bool
is_missing none key = false
is_missing (some (num_error err)) key = false
is_missing (some (entry_not_found err)) key =
    as_target err (some (record { key = key; kind = invalid }))

as_target_empty :
    (key : Text) (kind : Kind)
    → key ≢ []
    → is_missing (some (entry_not_found (record { key = []; kind = kind }))) key ≡ false
unfolding as_target
as_target_empty [] kind ne = absurd (ne refl)
as_target_empty (c ∷ cs) kind ne = refl

-- GetInt, GetInt64 and GetUint of a missing key fail, but the method As does not recognise their error
-- as one about that key, which is not empty: the error names the empty key.
pub missing_key_unnamed :
    {h : Host} (s : Store h) (key : Text)
    → key ≢ []
    → get_entry s key ≡ (empty_entry, false)
    → (is_missing (get_int s key).1 key ≡ false)
      × ((get_int s key).1 ≢ none)
      × (is_missing (get_int64 s key).1 key ≡ false)
      × ((get_int64 s key).1 ≢ none)
      × (is_missing (get_uint s key).1 key ≡ false)
      × ((get_uint s key).1 ≢ none)
unfolding get_int get_int64 get_uint
missing_key_unnamed s key ne m = (
  rw m (as_target_empty key int_kind ne),
  rw m (λ e. cc),
  rw m (as_target_empty key int64_kind ne),
  rw m (λ e. cc),
  rw m (as_target_empty key uint_kind ne),
  rw m (λ e. cc),
)

module _ {h : Host} (copy : h.Object → Option (Value h)) where
  visit_from_panics :
      (key : Text) (es : List (Entry h)) (e : Entry h)
      → lookup key es ≡ some e
      → entry_value copy e ≡ none
      → (visit_from copy es).1 ≡ false
  unfolding lookup visit_from
  visit_from_panics key [] e l p = absurd (cc)
  visit_from_panics key (x ∷ es) e l p =
      ground (arith, visit_from_panics key es e, eqb_iff x.key key)

  found_some : (o : Option (Entry h)) (e : Entry h) → found_or_empty o ≡ (e, true) → o ≡ some e
  found_some o e f = ground arith

  -- After SetImmutable of nil on a slice, Get of the key returns nil, but Visit does not come to its end: the
  -- value of an immutable nil entry panics.
  pub visit-immutable_nil :
      (grow : ℕ → ℕ) (s : Store h) (key : Text)
      → IsSlice s
      → (get copy (set_immutable grow s key nil).0 key ≡ some nil)
        × ((visit copy (set_immutable grow s key nil).0).1 ≡ false)
  unfolding get visit entry_value
  visit-immutable_nil grow s key ok =
      let t : Store h = (set_immutable grow s key nil).0 in
      let f = set_immutable-get_entry grow s key nil ok in
      (
        rw f,
        visit_from_panics key (entries t) (record { key = key; value_raw = nil; immutable = true })
            (found_some (lookup key (entries t)) _ (rw get_entry-refines at f)) refl,
      )
