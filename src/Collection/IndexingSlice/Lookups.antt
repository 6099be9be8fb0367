-- ===== src/Collection/IndexingSlice/Lookups.antt =====
-- Lookups by key after each operation: the slice with its index is a map from keys to items.
use openscraper_framework.Prelude.{
  ℕ, ◌-◌, ◌<◌, false, ◌&&◌, Option, none, some, List, [], ◌∷◌, ◌++◌, length, get_elem?, set, take,
  ltb, ltb→lt, if◌then◌else◌, ◌≡◌, ◌≢◌, refl, sym, ap, ◌∙◌, arith, Bool-cases, Option-cases, inl,
  inr, get_elem?-set_self, get_elem?-set_ne, get_elem?-take, get_elem?-lt, get_elem?-append_left,
  get_elem?-append_self, length-append,
}
use openscraper_framework.Prelude.Text.{Text, eqb, eqb_iff}
use openscraper_framework.Prelude.Dict
use openscraper_framework.Prelude.Dict.{Dict, get-put, get-delete}
use openscraper_framework.Collection.IndexingSlice.{
  IndexingSlice, found, missing, panics, at_entry, get_by_key, move_last, cut_last, delete_at,
  delete, add_at, add,
}
use openscraper_framework.Collection.IndexingSlice.Invariant.{IsIndexed}
use openscraper_framework.Collection.IndexingSlice.Cutting.{
  get_elem?-last, held_below, last_placed, n-lt, below,
}

module _ {T : Type 0} where
  -- A lookup whose index entry and item are known.
  found_at :
      (items : List T) (o : Option ℕ) (i : ℕ) (x : T)
      → o ≡ some i
      → get_elem? items i ≡ some x
      → at_entry items o ≡ found x
  unfolding at_entry
  found_at items o i x e at = rw (e, at_entry) (rw at)

  missing_at : (items : List T) (o : Option ℕ) → o ≡ none → at_entry items o ≡ missing
  unfolding at_entry
  missing_at items o e = rw e

  -- The same index entry, at a place that holds the same item.
  same_at :
      (items items' : List T) (o o' : Option ℕ)
      → o' ≡ o
      → ((i : ℕ) → o ≡ some i → get_elem? items' i ≡ get_elem? items i)
      → at_entry items' o' ≡ at_entry items o
  unfolding at_entry
  same_at items items' none o' e same = rw e
  same_at items items' (some i) o' e same = rw e (rw (same i refl))

module _ {T : Type 0} (get_key : T → Text) where
  -- In an indexed slice no lookup panics.
  pub get_by_key-ne-panics :
      (m : IndexingSlice T) (key : Text) → IsIndexed get_key m → get_by_key m key ≢ panics
  unfolding get_by_key
  get_by_key-ne-panics m key ok p = elim (Option-cases (Dict.get key m.index)) [
    | inl e ↦ cc (missing_at m.items (Dict.get key m.index) e)
    | inr (i, e) ↦
        let (x, at, q) = ok.held key i e in cc (found_at m.items (Dict.get key m.index) i x e at)
  ]

  added_lookup :
      (m : IndexingSlice T) (value : T) (key : Text)
      → IsIndexed get_key m
      → get_by_key (add_at get_key none m value).0 key
        ≡ (if eqb (get_key value) key then found value else get_by_key m key)
  unfolding get_by_key add_at
  added_lookup m value key ok = elim (Bool-cases (eqb (get_key value) key)) [
    | inl t ↦
        rw (t, get-put (get_key value) key)
          (found_at (m.items ++ value ∷ []) _ (length m.items) value
            (rw t (ap some (omega (arith, length-append m.items (value ∷ [])))))
            (get_elem?-append_self m.items value))
    | inr t ↦ rw t (
        same_at m.items (m.items ++ value ∷ []) (Dict.get key m.index) _
          (rw (get-put (get_key value) key, t))
          (λ i e.
            let (x, at, q) = ok.held key i e in
            get_elem?-append_left m.items (value ∷ []) i (get_elem?-lt m.items i x at)))
  ]

  -- In an indexed slice, Add of an item that it takes makes the item the one at its key and changes no
  -- other lookup; where it returns false it changes no lookup.
  pub get_by_key-add :
      (m : IndexingSlice T) (value : T) (key : Text)
      → IsIndexed get_key m
      → get_by_key (add get_key m value).0 key ≡ (
          if (add get_key m value).1 && eqb (get_key value) key
          then found value
          else get_by_key m key)
  unfolding add add_at
  get_by_key-add m value key ok = elim (Option-cases (Dict.get (get_key value) m.index)) [
    | inl e ↦ rw e (added_lookup m value key ok)
    | inr (i, e) ↦ rw e
  ]

module _ {T : Type 0} (get_key : T → Text) (m : IndexingSlice T) (key : Text) (idx n : ℕ) (last : T)
    (ok : IsIndexed get_key m) (here : Dict.get key m.index ≡ some idx)
    (n_last : n ≡ length m.items - 1) (at_last : get_elem? m.items n ≡ some last) where
  cut_lookup :
      (k : Text)
      → idx ≡ n
      → at_entry (take n m.items) (Dict.get k (Dict.delete key m.index))
        ≡ (if eqb key k then missing else at_entry m.items (Dict.get k m.index))
  cut_lookup k p = elim (Bool-cases (eqb key k)) [
    | inl t ↦ rw t (missing_at _ _ (rw (get-delete key k m.index ok.unique, t)))
    | inr t ↦ rw t (
        same_at m.items (take n m.items) (Dict.get k m.index) _
          (rw (get-delete key k m.index ok.unique, t))
          (λ i e.
            let (x, at, q, ne, le, lk) =
              held_below get_key m key idx n last ok here n_last at_last k i t e in
            get_elem?-take n m.items i
              (below get_key m key idx n last ok here n_last at_last i ne le p)))
  ]

  moved_lookup :
      (k : Text)
      → idx < n
      → at_entry
          (take n (set m.items idx last))
          (Dict.get k (Dict.put (get_key last) idx (Dict.delete key m.index)))
        ≡ (if eqb key k then missing else at_entry m.items (Dict.get k m.index))
  moved_lookup k l =
      let placed = last_placed get_key m key idx n last ok here n_last at_last in
      let fits = n-lt get_key m key idx n last ok here n_last at_last in
      elim (Bool-cases (eqb (get_key last) k)) [
        | inl t ↦
            let e : get_key last ≡ k = (eqb_iff (get_key last) k).0 t in
            let other : eqb key k ≡ false = ground (arith, eqb_iff key k) in
            rw other (
              found_at (take n (set m.items idx last)) _ idx last (rw (get-put (get_key last) k, t))
                (get_elem?-take n (set m.items idx last) idx l
                  ∙ get_elem?-set_self m.items idx last (omega arith))
              ∙ sym (found_at m.items (Dict.get k m.index) n last (rw e at placed) at_last))
        | inr t ↦ elim (Bool-cases (eqb key k)) [
          | inl u ↦ rw u (
              missing_at _ _
                (rw (get-put (get_key last) k, t, get-delete key k m.index ok.unique, u)))
          | inr u ↦ rw u (
              same_at m.items (take n (set m.items idx last)) (Dict.get k m.index) _
                (rw (get-put (get_key last) k, t, get-delete key k m.index ok.unique, u))
                (λ i e.
                  let (x, at, q, ne, le, lk) =
                    held_below get_key m key idx n last ok here n_last at_last k i u e in
                  let il : i < n = ground (arith, lk, eqb_iff (get_key last) k) in
                  get_elem?-take n (set m.items idx last) i il
                  ∙ get_elem?-set_ne m.items idx i last (λ p. ne (sym p))))
        ]
      ]

module _ {T : Type 0} (get_key : T → Text) where
  deleted_lookup :
      (m : IndexingSlice T) (key k : Text) (idx : ℕ)
      → IsIndexed get_key m
      → Dict.get key m.index ≡ some idx
      → get_by_key (delete_at get_key key (some idx) m) k
        ≡ (if eqb key k then missing else get_by_key m k)
  unfolding delete_at move_last cut_last get_by_key
  deleted_lookup m key k idx ok here =
      let n = length m.items - 1 in
      let (x, at, q) = ok.held key idx here in
      let l = get_elem?-lt m.items idx x at in
      let (last, at_last) = get_elem?-last m.items n (omega arith) in
      elim (Bool-cases (ltb idx n)) [
        | inl t ↦
            rw (t, at_last)
              (moved_lookup get_key m key idx n last ok here refl at_last k (ltb→lt idx n t))
        | inr t ↦ rw t (cut_lookup get_key m key idx n last ok here refl at_last k (ground arith))
      ]

  absent_lookup :
      (m : IndexingSlice T) (key k : Text)
      → Dict.get key m.index ≡ none
      → get_by_key m k ≡ (if eqb key k then missing else get_by_key m k)
  unfolding get_by_key
  absent_lookup m key k e = elim (Bool-cases (eqb key k)) [
    | inl t ↦ rw t (missing_at m.items (Dict.get k m.index) (rw ((eqb_iff key k).0 t) at e))
    | inr t ↦ rw t
  ]

  -- After Delete from an indexed slice the key is missing, and every other key is looked up as before,
  -- also the key of the item that was moved.
  pub get_by_key-delete :
      (m : IndexingSlice T) (key k : Text)
      → IsIndexed get_key m
      → get_by_key (delete get_key m key) k ≡ (if eqb key k then missing else get_by_key m k)
  unfolding delete
  get_by_key-delete m key k ok = elim (Option-cases (Dict.get key m.index)) [
    | inl e ↦ rw (e, delete_at) (absent_lookup m key k e)
    | inr (idx, e) ↦ rw e (deleted_lookup m key k idx ok e)
  ]
