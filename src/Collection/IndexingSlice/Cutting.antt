-- ===== src/Collection/IndexingSlice/Cutting.antt =====
-- The two ways Delete shortens the items, each with the index it leaves.
use openscraper_framework.Prelude.{
  ℕ, zero, suc, ◌-◌, ◌<◌, ◌≤◌, false, Option, none, some, List, [], ◌∷◌, length, get_elem?, set,
  take, ◌==◌, ◌≡◌, ◌≢◌, refl, sym, ◌∙◌, arith, Bool-cases, inl, inr, length-set, length-take,
  get_elem?-set_self, get_elem?-set_ne, get_elem?-take, get_elem?-lt,
}
use openscraper_framework.Prelude.Text.{Text, eqb, eqb_iff}
use openscraper_framework.Prelude.Dict
use openscraper_framework.Prelude.Dict.{
  Dict, get-put, get-delete, put-IsUnique, delete-IsUnique, length-put, length-delete,
}
use openscraper_framework.Collection.IndexingSlice.{IndexingSlice}
use openscraper_framework.Collection.IndexingSlice.Invariant.{IsIndexed}

module _ {T : Type 0} where
  get_elem?-take-some :
      (n : ℕ) (xs : List T) (i : ℕ) (x : T)
      → get_elem? (take n xs) i ≡ some x
      → (i < n) × (get_elem? xs i ≡ some x)
  get_elem?-take-some zero xs i x e = absurd (cc)
  get_elem?-take-some (suc n) [] i x e = absurd (cc)
  get_elem?-take-some (suc n) (y ∷ xs) zero x e = (omega arith, e)
  get_elem?-take-some (suc n) (y ∷ xs) (suc i) x e =
      let (l, q) = get_elem?-take-some n xs i x e in (omega arith, q)

  pub get_elem?-last : (xs : List T) (i : ℕ) → i < length xs → (x : T) × (get_elem? xs i ≡ some x)
  get_elem?-last [] i l = elim l [ ]
  get_elem?-last (x ∷ xs) zero l = (x, refl)
  get_elem?-last (x ∷ xs) (suc i) l = get_elem?-last xs i (omega arith)

-- The deleted key stands at `idx`, and the last item at `n`.
module _ {T : Type 0} (get_key : T → Text) (m : IndexingSlice T) (key : Text) (idx n : ℕ) (last : T)
    (ok : IsIndexed get_key m) (here : Dict.get key m.index ≡ some idx)
    (n_last : n ≡ length m.items - 1) (at_last : get_elem? m.items n ≡ some last) where
  pub last_placed : Dict.get (get_key last) m.index ≡ some n
  last_placed = ok.placed n last at_last

  pub n-lt : n < length m.items
  n-lt = get_elem?-lt m.items n last at_last

  shrunk : length m.index ≡ suc (length (Dict.delete key m.index))
  shrunk = ground (arith, length-delete key m.index)

  -- A key other than the deleted one is held below `n`, unless it is the last item's.
  pub held_below :
      (k : Text) (i : ℕ)
      → eqb key k ≡ false
      → Dict.get k m.index ≡ some i
      → (x : T) × (get_elem? m.items i ≡ some x)
        × (get_key x ≡ k)
        × (i ≢ idx)
        × (i ≤ n)
        × (i ≡ n → k ≡ get_key last)
  held_below k i t e =
      let (x, at, q) = ok.held k i e in
      let (y, at', q') = ok.held key idx here in
      (
        x,
        at,
        q,
        λ p. ground (arith, eqb_iff key k),
        omega (arith, get_elem?-lt m.items i x at),
        λ p. ground arith,
      )

  pub below : (i : ℕ) → i ≢ idx → i ≤ n → idx ≡ n → i < n
  below i ne le p = omega arith

  pub cut-IsIndexed :
      idx ≡ n
      → IsIndexed get_key (record { items = take n m.items; index = Dict.delete key m.index })
  cut-IsIndexed p = record {
    placed = λ i x e.
        let (l, at) = get_elem?-take-some n m.items i x e in
        ground (
          arith,
          get-delete key (get_key x) m.index ok.unique,
          ok.placed i x at,
          eqb_iff key (get_key x),
        );
    held = λ k i e. elim (Bool-cases (eqb key k)) [
      | inl t ↦
          let e' : ◌≡◌ {A = Option ℕ} none (some i) =
            rw (get-delete key k m.index ok.unique, t) at e in
          absurd (cc)
      | inr t ↦
          let (x, at, q, ne, le, lk) =
            held_below k i t (rw (get-delete key k m.index ok.unique, t) at e) in
          (x, get_elem?-take n m.items i (below i ne le p) ∙ at, q)
    ];
    unique = delete-IsUnique key m.index ok.unique;
    same_length =
        omega (arith, shrunk, ok.same_length, length-take n m.items (omega (arith, n-lt)));
  }

  moved_placed :
      (i : ℕ) (x : T)
      → idx < n
      → get_elem? (take n (set m.items idx last)) i ≡ some x
      → Dict.get (get_key x) (Dict.put (get_key last) idx (Dict.delete key m.index)) ≡ some i
  moved_placed i x l e =
      let (il, at) = get_elem?-take-some n (set m.items idx last) i x e in
      elim (Bool-cases (i == idx)) [
        | inl t ↦
            let p : i ≡ idx = ground arith in
            let same : some last ≡ some x =
              sym (get_elem?-set_self m.items idx last (omega (arith, n-lt))) ∙ (rw p at at) in
            ground (
              arith,
              get-put (get_key last) (get_key x) idx (Dict.delete key m.index),
              eqb_iff (get_key last) (get_key x),
            )
        | inr t ↦
            let old : get_elem? m.items i ≡ some x =
              sym (get_elem?-set_ne m.items idx i last (ground arith)) ∙ at in
            ground (
              arith,
              get-put (get_key last) (get_key x) idx (Dict.delete key m.index),
              get-delete key (get_key x) m.index ok.unique,
              ok.placed i x old,
              last_placed,
              eqb_iff (get_key last) (get_key x),
              eqb_iff key (get_key x),
            )
      ]

  moved_held :
      (k : Text) (i : ℕ)
      → idx < n
      → Dict.get k (Dict.put (get_key last) idx (Dict.delete key m.index)) ≡ some i
      → (x : T) × (get_elem? (take n (set m.items idx last)) i ≡ some x) × (get_key x ≡ k)
  moved_held k i l e = elim (Bool-cases (eqb (get_key last) k)) [
    | inl t ↦
        let e' : ◌≡◌ {A = Option ℕ} (some idx) (some i) = rw (get-put (get_key last) k, t) at e in
        let p : idx ≡ i = ground arith in
        (
          last,
          rw (← p) (
              get_elem?-take n (set m.items idx last) idx l
              ∙ get_elem?-set_self m.items idx last (omega (arith, n-lt))),
          (eqb_iff (get_key last) k).0 t,
        )
    | inr t ↦ elim (Bool-cases (eqb key k)) [
      | inl u ↦
          let e' : ◌≡◌ {A = Option ℕ} none (some i) =
            rw (get-put (get_key last) k, t, get-delete key k m.index ok.unique, u) at e in
          absurd (cc)
      | inr u ↦
          let (x, at, q, ne, le, lk) =
            held_below k i u
              (rw (get-put (get_key last) k, t, get-delete key k m.index ok.unique, u) at e) in
          let il : i < n = ground (arith, lk, eqb_iff (get_key last) k) in
          (
            x,
            get_elem?-take n (set m.items idx last) i il
                ∙ get_elem?-set_ne m.items idx i last (λ p. ne (sym p))
                ∙ at,
            q,
          )
    ]
  ]

  pub moved-IsIndexed :
      idx < n
      → IsIndexed get_key (record {
        items = take n (set m.items idx last);
        index = Dict.put (get_key last) idx (Dict.delete key m.index);
      })
  moved-IsIndexed l = record {
    placed = λ i x e. moved_placed i x l e;
    held = λ k i e. moved_held k i l e;
    unique = put-IsUnique (get_key last) idx _ (delete-IsUnique key m.index ok.unique);
    same_length = ground (
      arith,
      shrunk,
      ok.same_length,
      last_placed,
      n-lt,
      length-put (get_key last) idx (Dict.delete key m.index),
      get-delete key (get_key last) m.index ok.unique,
      eqb_iff key (get_key last),
      length-take n (set m.items idx last),
      length-set m.items idx last,
    );
  }
