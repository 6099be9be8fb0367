-- ===== src/Collection/IndexingSlice/Invariant.antt =====
-- The index names the place of every item, and nothing else.
use openscraper_framework.Prelude.{
  ℕ, zero, suc, ◌-◌, none, some, List, [], ◌∷◌, ◌++◌, length, get_elem?, if◌then◌else◌, ◌≡◌, refl,
  ap, ◌∙◌, arith, Bool-cases, Option-cases, inl, inr, ◌⊎◌, length-append, get_elem?-append_left,
  get_elem?-append_self, get_elem?-lt,
}
use openscraper_framework.Prelude.Text.{Text, eqb, eqb_iff}
use openscraper_framework.Prelude.Dict
use openscraper_framework.Prelude.Dict.{
  Dict, get-put, get-delete, put-IsUnique, delete-IsUnique, length-put, length-delete,
}
use openscraper_framework.Collection.IndexingSlice.{IndexingSlice, add_at, add, new_indexing_slice}

module _ {T : Type 0} (get_key : T → Text) where
  pub record IsIndexed (m : IndexingSlice T) : Type 0 where
    pub placed :
        (i : ℕ) (x : T) → get_elem? m.items i ≡ some x → Dict.get (get_key x) m.index ≡ some i
    pub held :
        (key : Text) (i : ℕ)
        → Dict.get key m.index ≡ some i
        → (x : T) × (get_elem? m.items i ≡ some x) × (get_key x ≡ key)
    pub unique : Dict.IsUnique m.index
    pub same_length : length m.index ≡ length m.items

  pub new-IsIndexed : IsIndexed new_indexing_slice
  unfolding Dict.get
  new-IsIndexed = record {
    placed = λ i x e. cc;
    held = λ key i e. cc;
    unique = tt;
    same_length = refl;
  }

  get_elem?-snoc :
      (xs : List T) (y : T) (i : ℕ) (x : T)
      → get_elem? (xs ++ y ∷ []) i ≡ some x
      → (get_elem? xs i ≡ some x) ⊎ ((i ≡ length xs) × (x ≡ y))
  get_elem?-snoc [] y zero x e = inr (refl, ground arith)
  get_elem?-snoc [] y (suc i) x e = absurd (cc)
  get_elem?-snoc (z ∷ xs) y zero x e = inl e
  get_elem?-snoc (z ∷ xs) y (suc i) x e = elim (get_elem?-snoc xs y i x e) [
    | inl p ↦ inl p
    | inr (p, q) ↦ inr (ap suc p, q)
  ]

  length-snoc : (xs : List T) (y : T) → length (xs ++ y ∷ []) - 1 ≡ length xs
  length-snoc xs y = omega (arith, length-append xs (y ∷ []))

  held_after_add :
      (m : IndexingSlice T) (value : T) (key : Text) (i : ℕ)
      → IsIndexed m
      → (if eqb (get_key value) key then some (length m.items) else Dict.get key m.index) ≡ some i
      → (x : T) × (get_elem? (m.items ++ value ∷ []) i ≡ some x) × (get_key x ≡ key)
  held_after_add m value key i ok e = elim (Bool-cases (eqb (get_key value) key)) [
    | inl t ↦
        let place : length m.items ≡ i = ground arith in
        (
          value,
          rw (← place) (get_elem?-append_self m.items value),
          (eqb_iff (get_key value) key).0 t,
        )
    | inr t ↦
        let (x, at, k) = ok.held key i (rw t at e) in
        (x, get_elem?-append_left m.items (value ∷ []) i (get_elem?-lt m.items i x at) ∙ at, k)
  ]

  -- Add of an item whose key the index lacks.
  add_new-IsIndexed :
      (m : IndexingSlice T) (value : T)
      → IsIndexed m
      → Dict.get (get_key value) m.index ≡ none
      → IsIndexed (add_at get_key none m value).0
  unfolding add_at
  add_new-IsIndexed m value ok absent = rw (length-snoc m.items value) (record {
    placed = λ i x e. elim (get_elem?-snoc m.items value i x e) [
      | inl old ↦ ground (
        arith,
        get-put (get_key value) (get_key x) (length m.items) m.index,
        ok.placed i x old,
        eqb_iff (get_key value) (get_key x),
      )
      | inr (p, q) ↦ ground (
        arith,
        get-put (get_key value) (get_key x) (length m.items) m.index,
        eqb_iff (get_key value) (get_key x),
      )
    ];
    held = λ key i e. held_after_add m value key i ok (rw (get-put (get_key value) key) at e);
    unique = put-IsUnique _ _ m.index ok.unique;
    same_length =
        rw (length-put (get_key value) (length m.items) m.index, absent)
          (omega (arith, ok.same_length, length-append m.items (value ∷ [])));
  })

  -- Add keeps the index right, whether the item is added or its key is there already.
  pub add-IsIndexed :
      (m : IndexingSlice T) (value : T) → IsIndexed m → IsIndexed (add get_key m value).0
  unfolding add add_at
  add-IsIndexed m value ok = elim (Option-cases (Dict.get (get_key value) m.index)) [
    | inl e ↦ rw e (add_new-IsIndexed m value ok e)
    | inr (i, e) ↦ rw e ok
  ]
