-- ===== src/Memstore/Store/Laws.antt =====
-- What a client of a store sees: lookups after each operation, and the invariant.
use openscraper_framework.Prelude.{
  ℕ, Bool, true, false, Option, none, some, List, [], ◌∷◌, if◌then◌else◌, ◌≡◌, refl, arith, is_none,
  ◌∙◌, Bool-cases, inl, inr, subst, sym,
}
use openscraper_framework.Prelude.Text.{Text, eqb, eqb_iff, eqb_refl}
use openscraper_framework.Memstore.Value.{Host, Value, Entry}
use openscraper_framework.Memstore.Store.{
  Store, entries, IsSlice, empty_entry, overwrite, save, set_value, set_immutable, get_entry,
  remove,
}
use openscraper_framework.Memstore.Store.Spec.{
  lookup, written, found_or_empty, lookup-saved, lookup-removed, IsUnique,
}
use openscraper_framework.Memstore.Store.Refines.{save-refines, get_entry-refines, remove-refines}

module _ {h : Host} where
  -- A slice of entries with no key twice.
  pub record IsStore (s : Store h) : Type 0 where
    pub slice : IsSlice s
    pub unique : IsUnique (entries s)

  found_written :
      (b : Bool) (o : Option (Entry h)) (e : Entry h)
      → found_or_empty (if b then some e else o) ≡ (if b then (e, true) else found_or_empty o)
  found_written true o e = refl
  found_written false o e = refl

  -- After Save, the entry that it returned is found at its key, and every other key is looked up as
  -- before.
  pub get_entry-save :
      (grow : ℕ → ℕ) (s : Store h) (key j : Text) (v : Value h) (immutable : Bool)
      → IsSlice s
      → get_entry (save grow s key v immutable).0 j
        ≡ (if eqb key j then ((save grow s key v immutable).1, true) else get_entry s j)
  get_entry-save grow s key j v immutable ok =
      let new : Entry h = record { key = key; value_raw = v; immutable = immutable } in
      let r = save-refines grow s key v immutable ok in
      rw (get_entry-refines, get_entry-refines, r.0, r.1, lookup-saved new j (entries s))
        (found_written (eqb key j) (lookup j (entries s)) (written (lookup key (entries s)) new))

  lookup-key :
      (key : Text) (es : List (Entry h)) (e : Entry h) → lookup key es ≡ some e → e.key ≡ key
  unfolding lookup
  lookup-key key [] e l = absurd (cc)
  lookup-key key (x ∷ es) e l = ground (arith, lookup-key key es e, eqb_iff x.key key)

  overwrite_kept :
      (o : Option (Entry h)) (new e : Entry h)
      → found_or_empty o ≡ (e, true)
      → e.immutable ≡ true
      → new.immutable ≡ false
      → written o new ≡ e
  unfolding overwrite
  overwrite_kept o new e f i n = ground arith

  found_is_some :
      (o : Option (Entry h)) (e : Entry h) → found_or_empty o ≡ (e, true) → is_none o ≡ false
  found_is_some o e f = ground arith

  overwritten :
      (o : Option (Entry h)) (new : Entry h)
      → ((e : Entry h) → o ≡ some e → e.key ≡ new.key)
      → new.immutable ≡ true
      → written o new ≡ new
  unfolding overwrite
  overwritten none new k i = refl
  overwritten (some e) new k i = ground (arith, k e refl)

  -- Set of a key whose entry is immutable changes no lookup of the slice, and returns that entry and
  -- false.
  pub set_value-immutable :
      (grow : ℕ → ℕ) (s : Store h) (key j : Text) (v : Value h) (e : Entry h)
      → IsSlice s
      → get_entry s key ≡ (e, true)
      → e.immutable ≡ true
      → (get_entry (set_value grow s key v).0 j ≡ get_entry s j)
        × ((set_value grow s key v).1 ≡ e)
        × ((set_value grow s key v).2 ≡ false)
  unfolding set_value
  set_value-immutable grow s key j v e ok f i =
      let new : Entry h = record { key = key; value_raw = v; immutable = false } in
      let r = save-refines grow s key v false ok in
      let g : found_or_empty (lookup key (entries s)) ≡ (e, true) = rw get_entry-refines at f in
      let w : (save grow s key v false).1 ≡ e =
        r.1 ∙ overwrite_kept (lookup key (entries s)) new e g i refl in
      (
        get_entry-save grow s key j v false ok ∙ same_lookup w f,
        w,
        r.2 ∙ found_is_some (lookup key (entries s)) e g,
      )
    where
      same_lookup :
          (save grow s key v false).1 ≡ e
          → get_entry s key ≡ (e, true)
          → (if eqb key j then ((save grow s key v false).1, true) else get_entry s j)
            ≡ get_entry s j
      same_lookup w f = elim (Bool-cases (eqb key j)) [
        | inl t ↦ rw (t, w) (subst (λ x. (e, true) ≡ get_entry s x) ((eqb_iff key j).0 t) (sym f))
        | inr t ↦ rw t
      ]

  -- SetImmutable on a slice always takes effect: GetEntry then finds its value at the key, immutable.
  pub set_immutable-get_entry :
      (grow : ℕ → ℕ) (s : Store h) (key : Text) (v : Value h)
      → IsSlice s
      → get_entry (set_immutable grow s key v).0 key
        ≡ (record { key = key; value_raw = v; immutable = true }, true)
  unfolding set_immutable
  set_immutable-get_entry grow s key v ok =
      let new : Entry h = record { key = key; value_raw = v; immutable = true } in
      let r = save-refines grow s key v true ok in
      rw (get_entry-save grow s key key v true ok, eqb_refl key, r.1)
        (rw (overwritten (lookup key (entries s)) new (λ e l. lookup-key key (entries s) e l) refl))

  -- After Remove the key is not found, and every other key is looked up as before.
  pub get_entry-remove :
      (s : Store h) (key j : Text)
      → IsStore s
      → get_entry (remove s key).0 j ≡ (if eqb key j then (empty_entry, false) else get_entry s j)
  get_entry-remove s key j ok =
      rw
        (
          get_entry-refines,
          (remove-refines s key ok.slice).0,
          lookup-removed key j (entries s) ok.unique,
        )
        (elim (Bool-cases (eqb key j)) [ inl t ↦ rw t | inr t ↦ rw (t, get_entry-refines) ])

  replaced :
      (o : Option (Entry h)) (new : Entry h)
      → ((e : Entry h) → o ≡ some e → e.key ≡ new.key)
      → (found_or_empty o).0.immutable ≡ false
      → written o new ≡ new
  unfolding overwrite
  replaced none new k i = refl
  replaced (some e) new k i = ground (arith, k e refl)

  -- Set of a key with no immutable entry: the value is found at the key.
  pub set_value-get_entry :
      (grow : ℕ → ℕ) (s : Store h) (key : Text) (v : Value h)
      → IsSlice s
      → (get_entry s key).0.immutable ≡ false
      → get_entry (set_value grow s key v).0 key
        ≡ (record { key = key; value_raw = v; immutable = false }, true)
  unfolding set_value
  set_value-get_entry grow s key v ok i =
      let new : Entry h = record { key = key; value_raw = v; immutable = false } in
      let r = save-refines grow s key v false ok in
      let i' : (found_or_empty (lookup key (entries s))).0.immutable ≡ false =
        rw get_entry-refines at i in
      rw (get_entry-save grow s key key v false ok, eqb_refl key, r.1)
        (rw (replaced (lookup key (entries s)) new (λ e l. lookup-key key (entries s) e l) i'))
