-- ===== src/Memstore/Store/Spec.antt =====
-- What a store promises: a list of entries with a lookup by key, in the order of insertion.
use openscraper_framework.Prelude.{
  Bool, true, false, Option, none, some, List, [], ◌∷◌, ◌≡◌, refl, arith, if◌then◌else◌,
}
use openscraper_framework.Prelude.Text.{Text, eqb, eqb_iff}
use openscraper_framework.Memstore.Value.{Host, Value, Entry}
use openscraper_framework.Memstore.Store.{empty_entry, overwrite}

module _ {h : Host} where
  unfoldable pub lookup : Text → List (Entry h) → Option (Entry h)
  lookup key [] = none
  lookup key (e ∷ es) = if eqb e.key key then some e else lookup key es

  -- The entry with true, or the empty entry with false.
  abbrev pub found_or_empty : Option (Entry h) → Entry h × Bool
  found_or_empty none = (empty_entry, false)
  found_or_empty (some e) = (e, true)

  -- The entry that a save leaves at its key.
  abbrev pub written : Option (Entry h) → Entry h → Entry h
  written none new = new
  written (some e) new = overwrite e new.value_raw new.immutable

  unfoldable pub saved : Entry h → List (Entry h) → List (Entry h)
  saved new [] = new ∷ []
  saved new (e ∷ es) =
      if eqb e.key new.key then overwrite e new.value_raw new.immutable ∷ es else e ∷ saved new es

  unfoldable pub removed : Text → List (Entry h) → List (Entry h)
  removed key [] = []
  removed key (e ∷ es) = if eqb e.key key then es else e ∷ removed key es

  pub key-overwrite : (e : Entry h) (v : Value h) (b : Bool) → (overwrite e v b).key ≡ e.key
  unfolding overwrite
  key-overwrite e v b = ground arith

  pub lookup-saved :
      (new : Entry h) (key : Text) (es : List (Entry h))
      → lookup key (saved new es)
        ≡ (if eqb new.key key then some (written (lookup new.key es) new) else lookup key es)
  unfolding lookup saved
  lookup-saved new key [] = refl
  lookup-saved new key (e ∷ es) = ground (
    arith,
    key-overwrite e new.value_raw new.immutable,
    lookup-saved new key es,
    eqb_iff e.key new.key,
    eqb_iff e.key key,
    eqb_iff new.key key,
  )

  -- No two entries have one key.
  abbrev pub IsUnique : List (Entry h) → Type 0
  IsUnique [] = Unit
  IsUnique (e ∷ es) = (lookup e.key es ≡ none) × IsUnique es

  pub saved-IsUnique : (new : Entry h) (es : List (Entry h)) → IsUnique es → IsUnique (saved new es)
  unfolding lookup saved
  saved-IsUnique new [] u = (refl, tt)
  saved-IsUnique new (e ∷ es) u = ground (
    arith,
    key-overwrite e new.value_raw new.immutable,
    lookup-saved new e.key es,
    saved-IsUnique new es u.1,
    eqb_iff e.key new.key,
    eqb_iff new.key e.key,
  )

  pub lookup-removed :
      (key j : Text) (es : List (Entry h))
      → IsUnique es
      → lookup j (removed key es) ≡ (if eqb key j then none else lookup j es)
  unfolding lookup removed
  lookup-removed key j [] u = ground arith
  lookup-removed key j (e ∷ es) u =
      ground (arith, lookup-removed key j es u.1, eqb_iff e.key key, eqb_iff e.key j, eqb_iff key j)

  pub removed-IsUnique :
      (key : Text) (es : List (Entry h)) → IsUnique es → IsUnique (removed key es)
  unfolding lookup removed
  removed-IsUnique key [] u = tt
  removed-IsUnique key (e ∷ es) u =
      ground (arith, lookup-removed key e.key es u.1, removed-IsUnique key es u.1)
