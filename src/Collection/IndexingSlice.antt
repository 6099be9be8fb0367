-- ===== src/Collection/IndexingSlice.antt =====
-- util/collection/indexing_slice.go. GetByKey, Add and Delete hold the lock throughout, so each is one
-- step; Len, LenKeys and GetByIndex take no lock. The items and their GetKey are the parameters of the section.
pub mod Invariant
mod Cutting
pub mod Deleting
pub mod Lookups
use openscraper_framework.Prelude.{
  ℕ, zero, suc, ◌-◌, Bool, true, false, Option, none, some, List, [], ◌∷◌, ◌++◌, length, get_elem?,
  set, take, ltb, if◌then◌else◌,
}
use openscraper_framework.Prelude.Int.{ℤ, pos, negsuc}
use openscraper_framework.Prelude.Text.{Text}
use openscraper_framework.Prelude.Dict
use openscraper_framework.Prelude.Dict.{Dict}

pub record IndexingSlice (T : Type 0) : Type 0 where
  pub items : List T
  pub index : Dict ℕ

-- What a lookup returns: the item, the zero value with false, or a panic on an index out of range.
pub data Lookup (T : Type 0) : Type 0 where
  found : T → Lookup T
  missing panics : Lookup T

module _ {T : Type 0} where
  abbrev pub new_indexing_slice : IndexingSlice T
  new_indexing_slice = record { items = []; index = [] }

  unfoldable pub len : IndexingSlice T → ℕ
  len m = length m.items

  unfoldable pub len_keys : IndexingSlice T → ℕ
  len_keys m = length m.index

  abbrev or_else : Option T → Lookup T → Lookup T
  or_else none e = e
  or_else (some x) e = found x

  -- The test is `idx >= len(m.items)` only: a negative index panics.
  unfoldable pub get_by_index : IndexingSlice T → ℤ → Lookup T
  get_by_index m (pos i) = or_else (get_elem? m.items i) missing
  get_by_index m (negsuc i) = panics

  at_entry : List T → Option ℕ → Lookup T
  at_entry items none = missing
  at_entry items (some i) = or_else (get_elem? items i) panics

  pub get_by_key : IndexingSlice T → Text → Lookup T
  unfolding at_entry
  get_by_key m key = at_entry m.items (Dict.get key m.index)

  -- The last item moves to the place of the deleted one.
  move_last : (T → Text) → ℕ → Option T → IndexingSlice T → IndexingSlice T
  move_last get_key idx none m = m
  move_last get_key idx (some last) m = record {
    items = set m.items idx last;
    index = Dict.put (get_key last) idx m.index;
  }

  cut_last : ℕ → IndexingSlice T → IndexingSlice T
  cut_last max_idx m = record m { items = take max_idx m.items }

  delete_at : (T → Text) → Text → Option ℕ → IndexingSlice T → IndexingSlice T
  unfolding move_last cut_last
  delete_at get_key key none m = m
  delete_at get_key key (some idx) m =
      let max_idx = length m.items - 1 in
      let rest = record m { index = Dict.delete key m.index } in
      cut_last max_idx
        (if ltb idx max_idx then move_last get_key idx (get_elem? m.items max_idx) rest else rest)

module _ {T : Type 0} (get_key : T → Text) where
  add_at : Option ℕ → IndexingSlice T → T → IndexingSlice T × Bool
  add_at (some idx) m value = (m, false)
  add_at none m value = (
    record {
      items = m.items ++ value ∷ [];
      index = Dict.put (get_key value) (length (m.items ++ value ∷ []) - 1) m.index;
    },
    true,
  )

  pub add : IndexingSlice T → T → IndexingSlice T × Bool
  unfolding add_at
  add m value = add_at (Dict.get (get_key value) m.index) m value

  pub delete : IndexingSlice T → Text → IndexingSlice T
  unfolding delete_at
  delete m key = delete_at get_key key (Dict.get key m.index) m
