-- ===== src/Spider/Packing/Batches.antt =====
-- What Pack hands out: every item once, in order, in batches of the size that was asked for.
use openscraper_framework.Prelude.{
  ℕ, zero, suc, ◌≤◌, ◌<◌, true, Bool-cases, List, [], ◌∷◌, ◌++◌, ltb, leb, length, take, drop, set,
  replicate, All, max, ◌≡◌, refl, sym, subst, ap, ◌∙◌, arith, inl, inr, length-append, length-set,
  length-take, take-suc-set, take-suc-append,
}
use mathlib.Core.List.{append_assoc, append-nil}
use openscraper_framework.Prelude.Batches.{concat, concat-snoc, All-snoc}
use openscraper_framework.Spider.Packing.{
  Event, item, tick, Packer, contents, put_array, append, flush, select, pack, start,
}

abbrev pub arrivals : {Item : Type 0} → List (Event Item) → List Item
arrivals [] = []
arrivals (item x ∷ es) = x ∷ arrivals es
arrivals (tick ∷ es) = arrivals es

-- A batch is not empty, and no longer than the size.
abbrev pub IsBatch : {Item : Type 0} → ℕ → List Item → Type 0
IsBatch bulk_size xs = (0 < length xs) × (length xs ≤ max 1 bulk_size)

-- The length of the slice is within its array, and below the size where that is not 0.
record IsPacker {Item : Type 0} (bulk_size : ℕ) (seen : List Item) (p : Packer Item) : Type 0 where
  fits : p.items.len ≤ length (p.arrays p.items.array)
  below : p.items.len < max 1 bulk_size
  kept : concat p.given ++ contents p.arrays p.items ≡ seen
  batches : All (IsBatch bulk_size) p.given

module _ {Item : Type 0} (grow : ℕ → ℕ) (zero_item : Item) where
  put_array_self : (a : ℕ) (xs : List Item) (arrays : ℕ → List Item) → put_array a xs arrays a ≡ xs
  put_array_self a xs arrays = ground arith

  append-contents :
      (p : Packer Item) (x : Item)
      → p.items.len ≤ length (p.arrays p.items.array)
      → let q = append grow zero_item x p in
        (contents q.arrays q.items ≡ contents p.arrays p.items ++ x ∷ [])
        × (q.items.len ≤ length (q.arrays q.items.array))
        × (q.items.len ≡ suc p.items.len)
        × (q.given ≡ p.given)
  unfolding append
  append-contents p x h =
      let n = p.items.len in
      let xs = p.arrays p.items.array in
      elim (Bool-cases (ltb n (length xs))) [
        | inl t ↦
            let e = put_array_self p.items.array (set xs n x) p.arrays in
            let short : n < length xs = ground arith in
            rw t (
              rw e (take-suc-set n xs x short),
              rw e (omega (arith, length-set xs n x)),
              refl,
              refl,
            )
        | inr t ↦
            let ys = take n xs ++ x ∷ replicate (grow n) zero_item in
            let e = put_array_self p.fresh ys p.arrays in
            let m = length-take n xs h in
            rw t (
              rw e (take-suc-append n (take n xs) x (replicate (grow n) zero_item) (sym m)),
              rw e (omega (arith, m, length-append (take n xs) (x ∷ replicate (grow n) zero_item))),
              refl,
              refl,
            )
      ]

  flush-IsPacker :
      (bulk_size : ℕ) (seen : List Item) (p : Packer Item)
      → p.items.len ≤ length (p.arrays p.items.array)
      → 0 < p.items.len
      → p.items.len ≤ max 1 bulk_size
      → concat p.given ++ contents p.arrays p.items ≡ seen
      → All (IsBatch bulk_size) p.given
      → IsPacker bulk_size seen (flush p)
  unfolding flush
  flush-IsPacker bulk_size seen p f h b k a =
      let m = length-take p.items.len (p.arrays p.items.array) f in
      record {
        fits = omega arith;
        below = omega arith;
        kept =
            append-nil (concat (p.given ++ contents p.arrays p.items ∷ []))
            ∙ concat-snoc p.given (contents p.arrays p.items)
            ∙ k;
        batches =
            All-snoc (IsBatch bulk_size) p.given (contents p.arrays p.items) a
              (omega (arith, m), omega (arith, m));
      }

  module _ (bulk_size : ℕ) where
    select-IsPacker :
        (e : Event Item) (seen : List Item) (p : Packer Item)
        → IsPacker bulk_size seen p
        → IsPacker bulk_size (seen ++ arrivals (e ∷ [])) (select grow zero_item bulk_size e p)
    unfolding select
    select-IsPacker (item x) seen p i =
        let q = append grow zero_item x p in
        let (c, f, n, g) = append-contents p x i.fits in
        let k : concat q.given ++ contents q.arrays q.items ≡ seen ++ x ∷ [] =
          ap (λ o. concat o ++ contents q.arrays q.items) g
          ∙ ap (λ o. concat p.given ++ o) c
          ∙ sym (append_assoc (concat p.given) (contents p.arrays p.items) (x ∷ []))
          ∙ ap (λ o. o ++ x ∷ []) i.kept in
        let a : All (IsBatch bulk_size) q.given = rw g i.batches in
        elim (Bool-cases (leb bulk_size q.items.len)) [
          | inl t ↦ rw t (
              flush-IsPacker bulk_size (seen ++ x ∷ []) q f (omega (arith, n))
                (omega (arith, n, i.below)) k a)
          | inr t ↦ rw t (record { fits = f; below = ground (arith, n); kept = k; batches = a })
        ]
    select-IsPacker tick seen p i = elim (Bool-cases (ltb 0 p.items.len)) [
      | inl t ↦
          let some_items : 0 < p.items.len = ground arith in
          rw (t, append-nil seen)
            (flush-IsPacker bulk_size seen p i.fits some_items (omega (arith, i.below)) i.kept
              i.batches)
      | inr t ↦ rw (t, append-nil seen) i
    ]

    pack-IsPacker :
        (es : List (Event Item)) (seen : List Item) (p : Packer Item)
        → IsPacker bulk_size seen p
        → IsPacker bulk_size (seen ++ arrivals es) (pack grow zero_item bulk_size es p)
    unfolding pack
    pack-IsPacker [] seen p i = rw (append-nil seen) i
    pack-IsPacker (e ∷ es) seen p i =
        subst (λ o. IsPacker bulk_size o (pack grow zero_item bulk_size (e ∷ es) p))
          (append_assoc seen (arrivals (e ∷ [])) (arrivals es) ∙ ap (λ o. seen ++ o) (joined e))
          (pack-IsPacker es (seen ++ arrivals (e ∷ [])) (select grow zero_item bulk_size e p)
            (select-IsPacker e seen p i))
      where
        joined : (e : Event Item) → arrivals (e ∷ []) ++ arrivals es ≡ arrivals (e ∷ es)
        joined (item x) = refl
        joined tick = refl

    -- Whatever arrives and whenever it ticks: the batches that Pack made, one after the other, and then the
    -- items that it still holds are exactly the items that arrived, in order; no batch is empty or longer
    -- than bulkSize (than 1 where that is 0), and Pack holds fewer than that.
    pub pack_lem :
        (es : List (Event Item))
        → let p = pack grow zero_item bulk_size es start in
          (concat p.given ++ contents p.arrays p.items ≡ arrivals es)
          × All (IsBatch bulk_size) p.given
          × (p.items.len < max 1 bulk_size)
    pack_lem es =
        let i =
          pack-IsPacker es [] start
            (record { fits = omega arith; below = omega arith; kept = refl; batches = tt }) in
        (i.kept, i.batches, i.below)

take-set_zero :
    {Item : Type 0} (n : ℕ) (xs : List Item) (x : Item)
    → 0 < n
    → n ≤ length xs
    → take n (set xs 0 x) ≡ x ∷ drop 1 (take n xs)
take-set_zero zero xs x h f = elim h [ ]
take-set_zero (suc n) [] x h f = elim f [ ]
take-set_zero (suc n) (y ∷ ys) x h f = refl

-- The slice that parseItems was given is used again: where its function keeps it, as it may keep a batch
-- of items without contexts, the next item that arrives overwrites the first item of the batch.
pub flush-overwrites :
    {Item : Type 0} (grow : ℕ → ℕ) (zero_item x : Item) (p : Packer Item)
    → 0 < p.items.len
    → p.items.len ≤ length (p.arrays p.items.array)
    → let q = append grow zero_item x (flush p) in
      contents q.arrays p.items ≡ x ∷ drop 1 (contents p.arrays p.items)
unfolding append flush
flush-overwrites grow zero_item x p h f =
    let xs = p.arrays p.items.array in
    let t : ltb 0 (length xs) ≡ true = ground arith in
    rw (t, put_array_self grow zero_item p.items.array (set xs 0 x) p.arrays)
      (take-set_zero p.items.len xs x h f)
