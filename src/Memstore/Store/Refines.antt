-- ===== src/Memstore/Store/Refines.antt =====
-- The slice operations do to the list of entries what the specification says.
use openscraper_framework.Prelude.{
  ℕ, zero, suc, ◌-◌, ◌≤◌, ◌<◌, Bool, Bool-cases, Option, none, some, List, [], ◌∷◌, ◌++◌, ltb,
  length, set, take, drop, replicate, ◌≡◌, refl, arith, inl, inr, ◌∙◌, length-append, length-set,
  length-take, length-drop, take-set, take-suc-set, sym, ltb→lt, take-suc-append, take-append_eq,
  take-take, not, is_none,
}
use openscraper_framework.Prelude.Text.{Text}
use openscraper_framework.Memstore.Value.{Host, Value, Entry}
use openscraper_framework.Memstore.Store.{
  Store, entries, IsSlice, empty_entry, find, overwrite, add, save_at, save, get_found, get_entry,
  remove_at, remove,
}
use openscraper_framework.Memstore.Store.Spec.{lookup, saved, removed, written, found_or_empty}

module _ {h : Host} where
  find-none :
      (new : Entry h) (es : List (Entry h))
      → find new.key es ≡ none
      → (lookup new.key es ≡ none) × (saved new es ≡ es ++ new ∷ []) × (removed new.key es ≡ es)
  unfolding find lookup saved removed
  find-none new [] e = (refl, refl, refl)
  find-none new (x ∷ es) e = ground (arith, find-none new es)

  find-some :
      (new : Entry h) (es : List (Entry h)) (i : ℕ) (kv : Entry h)
      → find new.key es ≡ some (i, kv)
      → (lookup new.key es ≡ some kv)
        × (saved new es ≡ set es i (overwrite kv new.value_raw new.immutable))
        × (removed new.key es ≡ take i es ++ drop (suc i) es)
        × (i < length es)
  unfolding find lookup saved removed
  find-some new [] i kv e = absurd (cc)
  find-some new (x ∷ es) zero kv e = ground arith
  find-some new (x ∷ es) (suc i) kv e = ground (arith, find-some new es i kv)

  -- A slot in use is below the length, so writing it changes the entries alike.
  entries-set :
      (s : Store h) (i : ℕ) (e : Entry h)
      → entries (record s { buf = set s.buf i e }) ≡ set (entries s) i e
  entries-set s i e = take-set s.len s.buf i e

  length-entries : (s : Store h) → IsSlice s → length (entries s) ≡ s.len
  length-entries s ok = length-take s.len s.buf ok

  add-refines :
      (grow : ℕ → ℕ) (s : Store h) (e : Entry h)
      → IsSlice s
      → (entries (add grow s e) ≡ entries s ++ e ∷ []) × IsSlice (add grow s e)
  unfolding add
  add-refines grow s e ok = elim (Bool-cases (ltb s.len (length s.buf))) [
    | inl room ↦ rw room (
      take-suc-set s.len s.buf e (ground arith),
      omega (arith, length-set s.buf s.len e, ltb→lt s.len (length s.buf) room),
    )
    | inr full ↦ rw full (
      take-suc-append s.len (entries s) e (replicate (grow s.len) empty_entry)
          (sym (length-entries s ok)),
      omega (
        arith,
        length-entries s ok,
        length-append (entries s) (e ∷ replicate (grow s.len) empty_entry),
      ),
    )
  ]

  -- The entries behind the removed one move down by one.
  removed_entries :
      (s : Store h) (i : ℕ)
      → IsSlice s
      → i < s.len
      → take (s.len - 1) (take i s.buf ++ (drop (suc i) (entries s) ++ drop (s.len - 1) s.buf))
        ≡ take i (entries s) ++ drop (suc i) (entries s)
  removed_entries s i ok l = rw (take-take i s.len s.buf (omega arith)) (
      take-append_eq (s.len - 1) (take i s.buf) (drop (suc i) (entries s)) (drop (s.len - 1) s.buf)
        (omega (
          arith,
          length-take i s.buf (omega arith),
          length-drop (suc i) (entries s),
          length-entries s ok,
        )))

  removed_fits :
      (s : Store h) (i : ℕ)
      → IsSlice s
      → i < s.len
      → s.len - 1 ≤ length (take i s.buf ++ (drop (suc i) (entries s) ++ drop (s.len - 1) s.buf))
  removed_fits s i ok l = omega (
    arith,
    length-append (take i s.buf) (drop (suc i) (entries s) ++ drop (s.len - 1) s.buf),
    length-append (drop (suc i) (entries s)) (drop (s.len - 1) s.buf),
    length-take i s.buf (omega arith),
    length-drop (suc i) (entries s),
    length-entries s ok,
  )

  -- Save replaces the entry of its key or adds one, and tells which; the slice stays one.
  pub save-refines :
      (grow : ℕ → ℕ) (s : Store h) (key : Text) (v : Value h) (immutable : Bool)
      → IsSlice s
      → let new : Entry h = record { key = key; value_raw = v; immutable = immutable } in
        (entries (save grow s key v immutable).0 ≡ saved new (entries s))
        × ((save grow s key v immutable).1 ≡ written (lookup key (entries s)) new)
        × ((save grow s key v immutable).2 ≡ is_none (lookup key (entries s)))
        × IsSlice (save grow s key v immutable).0
  unfolding save save_at
  save-refines grow s key v immutable ok = go (find key (entries s)) refl
    where
      new : Entry h
      new = record { key = key; value_raw = v; immutable = immutable }

      go :
          (r : Option (ℕ × Entry h))
          → find key (entries s) ≡ r
          → (entries (save_at grow s new r).0 ≡ saved new (entries s))
            × ((save_at grow s new r).1 ≡ written (lookup key (entries s)) new)
            × ((save_at grow s new r).2 ≡ is_none (lookup key (entries s)))
            × IsSlice (save_at grow s new r).0
      go none e =
          let f = find-none new (entries s) e in
          let a = add-refines grow s new ok in (a.0 ∙ sym f.1, rw f.0, rw f.0, a.1)
      go (some (i, kv)) e =
          let f = find-some new (entries s) i kv e in
          (
            entries-set s i (overwrite kv v immutable) ∙ sym f.1,
            rw f.0,
            rw f.0,
            omega (arith, length-set s.buf i (overwrite kv v immutable)),
          )

  pub get_entry-refines :
      (s : Store h) (key : Text) → get_entry s key ≡ found_or_empty (lookup key (entries s))
  unfolding get_entry get_found
  get_entry-refines s key = go (find key (entries s)) refl
    where
      probe : Entry h
      probe = record (empty_entry {h = h}) { key = key }

      go :
          (r : Option (ℕ × Entry h))
          → find key (entries s) ≡ r
          → get_found r ≡ found_or_empty (lookup key (entries s))
      go none e = rw (find-none probe (entries s) e).0
      go (some (i, kv)) e = rw (find-some probe (entries s) i kv e).0

  -- Remove deletes the entry of the key, if there is one, and tells whether there was one.
  pub remove-refines :
      (s : Store h) (key : Text)
      → IsSlice s
      → (entries (remove s key).0 ≡ removed key (entries s))
        × ((remove s key).1 ≡ not (is_none (lookup key (entries s))))
        × IsSlice (remove s key).0
  unfolding remove remove_at
  remove-refines s key ok = go (find key (entries s)) refl
    where
      probe : Entry h
      probe = record (empty_entry {h = h}) { key = key }

      go :
          (r : Option (ℕ × Entry h))
          → find key (entries s) ≡ r
          → (entries (remove_at s r).0 ≡ removed key (entries s))
            × ((remove_at s r).1 ≡ not (is_none (lookup key (entries s))))
            × IsSlice (remove_at s r).0
      go none e = let f = find-none probe (entries s) e in (sym f.2, rw f.0, ok)
      go (some (i, kv)) e =
          let f = find-some probe (entries s) i kv e in
          (
            removed_entries s i ok (omega (arith, f.3, length-entries s ok)) ∙ sym f.2,
            rw f.0,
            removed_fits s i ok (omega (arith, f.3, length-entries s ok)),
          )
