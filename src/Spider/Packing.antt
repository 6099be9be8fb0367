-- ===== src/Spider/Packing.antt =====
-- ItemCh.Pack of spider/item.go: items are gathered into batches, by number or by time. The slice of the
-- items gathered is an array in memory and a length, since `items[:0]` keeps the array. A receive on the
-- target always comes, so that a send returns.
pub mod Batches
use openscraper_framework.Prelude.{
  ℕ, zero, suc, ◌+◌, Bool, List, [], ◌∷◌, ◌++◌, ltb, leb, length, take, set, replicate, ◌==◌,
  if◌then◌else◌,
}

pub data Event (Item : Type 0) : Type 0 where
  item : Item → Event Item
  tick : Event Item

-- A slice of an array, from its start.
pub record Slice : Type 0 where
  pub array : ℕ
  pub len : ℕ

-- The arrays, whose lengths are the capacities; those from `fresh` on are not there yet. `given` is what
-- parseItems was given, as it was at each call.
pub record Packer (Item : Type 0) : Type 0 where
  pub arrays : ℕ → List Item
  pub fresh : ℕ
  pub items : Slice
  pub given : List (List Item)

module _ {Item : Type 0} where
  abbrev pub contents : (ℕ → List Item) → Slice → List Item
  contents arrays s = take s.len (arrays s.array)

  abbrev pub put_array : ℕ → List Item → (ℕ → List Item) → ℕ → List Item
  put_array a xs arrays = λ b. if b == a then xs else arrays b

  -- append(items, item), where append makes `grow len` spare slots of `zero_item` in a new array.
  unfoldable pub append : (ℕ → ℕ) → Item → Item → Packer Item → Packer Item
  append grow zero_item x p =
      let s = p.items in
      if ltb s.len (length (p.arrays s.array))
      then record p {
        arrays = put_array s.array (set (p.arrays s.array) s.len x) p.arrays;
        items = record s { len = suc s.len };
      }
      else record p {
        arrays =
            put_array p.fresh
              (take s.len (p.arrays s.array) ++ x ∷ replicate (grow s.len) zero_item) p.arrays;
        fresh = suc p.fresh;
        items = record { array = p.fresh; len = suc s.len };
      }

  -- parseItems is called on the slice, and `items = items[:0]`.
  unfoldable pub flush : Packer Item → Packer Item
  flush p = record p {
    given = p.given ++ contents p.arrays p.items ∷ [];
    items = record p.items { len = 0 };
  }

  -- One round of the select.
  unfoldable pub select : (ℕ → ℕ) → Item → ℕ → Event Item → Packer Item → Packer Item
  unfolding append flush
  select grow zero_item bulk_size (item x) p =
      let q = append grow zero_item x p in if leb bulk_size q.items.len then flush q else q
  select grow zero_item bulk_size tick p = if ltb 0 p.items.len then flush p else p

  unfoldable pub pack : (ℕ → ℕ) → Item → ℕ → List (Event Item) → Packer Item → Packer Item
  unfolding select
  pack grow zero_item bulk_size [] p = p
  pack grow zero_item bulk_size (e ∷ es) p =
      pack grow zero_item bulk_size es (select grow zero_item bulk_size e p)

  -- `var items []Item`: a nil slice, of an array with no slots.
  abbrev pub start : Packer Item
  start = record { arrays = λ a. []; fresh = 1; items = record { array = 0; len = 0 }; given = [] }
