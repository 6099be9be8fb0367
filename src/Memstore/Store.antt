-- ===== src/Memstore/Store.antt =====
-- Store, a slice of entries: the backing array is `buf`, and the first `len` slots are in use. The
-- slots behind keep what they held, until Save writes over them.
pub mod Spec
pub mod Refines
pub mod Laws
pub mod Run
use openscraper_framework.Prelude.{
  ℕ, zero, suc, ◌+◌, ◌-◌, ◌≤◌, Bool, true, false, not, ◌&&◌, Option, none, some, List, [], ◌∷◌,
  ◌++◌, ltb, length, get_elem?, set, take, drop, replicate, if◌then◌else◌,
}
use openscraper_framework.Prelude.Int.{ℤ, pos, negsuc}
use openscraper_framework.Prelude.Text.{Text, eqb}
use openscraper_framework.Memstore.Value.{Host, Value, nil, Entry}

pub record Store (h : Host) : Type 0 where
  pub buf : List (Entry h)
  pub len : ℕ

abbrev pub entries : {h : Host} → Store h → List (Entry h)
entries s = take s.len s.buf

-- The length of a slice is at most its capacity.
abbrev pub IsSlice : {h : Host} → Store h → Type 0
IsSlice s = s.len ≤ length s.buf

abbrev pub empty_entry : {h : Host} → Entry h
empty_entry = record { key = []; value_raw = nil; immutable = false }

abbrev next_index : {h : Host} → Option (ℕ × Entry h) → Option (ℕ × Entry h)
next_index none = none
next_index (some (i, e)) = some (suc i, e)

-- `for i := 0; i < n; i++ { if args[i].Key == key …`: the index and the entry that it stops at.
find : {h : Host} → Text → List (Entry h) → Option (ℕ × Entry h)
find key [] = none
find key (kv ∷ kvs) = if eqb kv.key key then some (zero, kv) else next_index (find key kvs)

-- What Save writes over an entry that it finds.
unfoldable pub overwrite : {h : Host} → Entry h → Value h → Bool → Entry h
overwrite kv value immutable =
    let new = record kv { value_raw = value; immutable = immutable } in
    if immutable && kv.immutable then new else if not kv.immutable then new else kv

-- The two ways to add: in the spare capacity, or in a new array that append makes. How much larger
-- the array gets is up to Go's runtime: `grow n` is the number of spare slots.
add : {h : Host} → (ℕ → ℕ) → Store h → Entry h → Store h
add grow s kv =
    if ltb s.len (length s.buf)
    then record { buf = set s.buf s.len kv; len = suc s.len }
    else record { buf = entries s ++ kv ∷ replicate (grow s.len) empty_entry; len = suc s.len }

save_at : {h : Host} → (ℕ → ℕ) → Store h → Entry h → Option (ℕ × Entry h) → Store h × Entry h × Bool
unfolding overwrite add
save_at grow s new (some (i, kv)) =
    let written = overwrite kv new.value_raw new.immutable in
    (record s { buf = set s.buf i written }, written, false)
save_at grow s new none = (add grow s new, new, true)

pub save : {h : Host} → (ℕ → ℕ) → Store h → Text → Value h → Bool → Store h × Entry h × Bool
unfolding find save_at
save grow s key value immutable =
    save_at grow s (record { key = key; value_raw = value; immutable = immutable })
      (find key (entries s))

-- Set
unfoldable pub set_value :
    {h : Host} → (ℕ → ℕ) → Store h → Text → Value h → Store h × Entry h × Bool
set_value grow s key value = save grow s key value false

unfoldable pub set_immutable :
    {h : Host} → (ℕ → ℕ) → Store h → Text → Value h → Store h × Entry h × Bool
set_immutable grow s key value = save grow s key value true

get_found : {h : Host} → Option (ℕ × Entry h) → Entry h × Bool
get_found none = (empty_entry, false)
get_found (some (i, e)) = (e, true)

pub get_entry : {h : Host} → Store h → Text → Entry h × Bool
unfolding find get_found
get_entry s key = get_found (find key (entries s))

at_index : {h : Host} → Option (Entry h) → Entry h × Bool
at_index none = (empty_entry, false)
at_index (some e) = (e, true)

-- A negative index panics, which is `none`.
pub get_entry_at : {h : Host} → Store h → ℤ → Option (Entry h × Bool)
unfolding at_index
get_entry_at s (pos i) = some (at_index (get_elem? (entries s) i))
get_entry_at s (negsuc i) = none

-- `append(args[:i], args[i+1:]...)` moves the later entries down in place.
remove_at : {h : Host} → Store h → Option (ℕ × Entry h) → Store h × Bool
remove_at s none = (s, false)
remove_at s (some (i, kv)) = (
  record {
    buf = take i s.buf ++ (drop (suc i) (entries s) ++ drop (s.len - 1) s.buf);
    len = s.len - 1;
  },
  true,
)

pub remove : {h : Host} → Store h → Text → Store h × Bool
unfolding find remove_at
remove s key = remove_at s (find key (entries s))

pub reset : {h : Host} → Store h → Store h
reset s = record s { len = 0 }

pub len_of : {h : Host} → Store h → ℕ
len_of s = s.len
