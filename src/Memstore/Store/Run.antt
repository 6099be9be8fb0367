-- ===== src/Memstore/Store/Run.antt =====
-- Sequences of calls on a store: the invariant, and a store as a map from keys to entries.
use openscraper_framework.Prelude.{
  ℕ, Bool, Option, none, some, List, [], ◌∷◌, if◌then◌else◌, ◌≡◌, refl, arith, ap,
}
use mathlib.Core.Path.{fun_ext}
use openscraper_framework.Prelude.Text.{Text, eqb}
use openscraper_framework.Memstore.Value.{Host, Value, Entry}
use openscraper_framework.Memstore.Store.{Store, entries, get_entry, save, remove, reset}
use openscraper_framework.Memstore.Store.Spec.{
  lookup, written, found_or_empty, lookup-saved, lookup-removed, saved-IsUnique, removed-IsUnique,
}
use openscraper_framework.Memstore.Store.Refines.{save-refines, get_entry-refines, remove-refines}
use openscraper_framework.Memstore.Store.Laws.{IsStore}

-- One call of a method that changes the store.
pub data Op (h : Host) : Type 0 where
  save_op : Text → Value h → Bool → Op h
  remove_op : Text → Op h
  reset_op : Op h

-- A map from keys to entries.
abbrev pub Model : Host → Type 0
Model h = Text → Option (Entry h)

module _ {h : Host} where
  abbrev pub apply : (ℕ → ℕ) → Store h → Op h → Store h
  apply grow s (save_op key v immutable) = (save grow s key v immutable).0
  apply grow s (remove_op key) = (remove s key).0
  apply grow s reset_op = reset s

  unfoldable pub run : (ℕ → ℕ) → Store h → List (Op h) → Store h
  run grow s [] = s
  run grow s (op ∷ ops) = run grow (apply grow s op) ops

  apply-IsStore : (grow : ℕ → ℕ) (s : Store h) (op : Op h) → IsStore s → IsStore (apply grow s op)
  unfolding reset
  apply-IsStore grow s (save_op key v immutable) ok =
      let r = save-refines grow s key v immutable ok.slice in
      record { slice = r.3; unique = rw r.0 (saved-IsUnique _ (entries s) ok.unique) }
  apply-IsStore grow s (remove_op key) ok =
      let r = remove-refines s key ok.slice in
      record { slice = r.2; unique = rw r.0 (removed-IsUnique key (entries s) ok.unique) }
  apply-IsStore grow s reset_op ok = record { slice = omega arith; unique = tt }

  -- Whatever the calls of Save, Remove and Reset, and however append grows the array, a store stays
  -- a slice within its capacity in which no key occurs twice.
  pub run-IsStore :
      (grow : ℕ → ℕ) (s : Store h) (ops : List (Op h)) → IsStore s → IsStore (run grow s ops)
  unfolding run
  run-IsStore grow s [] ok = ok
  run-IsStore grow s (op ∷ ops) ok =
      run-IsStore grow (apply grow s op) ops (apply-IsStore grow s op ok)

  -- What each call does to a map.
  abbrev pub apply_model : Model h → Op h → Model h
  apply_model m (save_op key v immutable) j =
      let new : Entry h = record { key = key; value_raw = v; immutable = immutable } in
      if eqb key j then some (written (m key) new) else m j
  apply_model m (remove_op key) j = if eqb key j then none else m j
  apply_model m reset_op j = none

  unfoldable pub run_model : Model h → List (Op h) → Model h
  run_model m [] = m
  run_model m (op ∷ ops) = run_model (apply_model m op) ops

  apply-model :
      (grow : ℕ → ℕ) (s : Store h) (op : Op h) (j : Text)
      → IsStore s
      → lookup j (entries (apply grow s op)) ≡ apply_model (λ k. lookup k (entries s)) op j
  unfolding reset lookup
  apply-model grow s (save_op key v immutable) j ok =
      rw (save-refines grow s key v immutable ok.slice).0 (lookup-saved _ j (entries s))
  apply-model grow s (remove_op key) j ok =
      rw (remove-refines s key ok.slice).0 (lookup-removed key j (entries s) ok.unique)
  apply-model grow s reset_op j ok = refl

  lookup-run :
      (grow : ℕ → ℕ) (s : Store h) (ops : List (Op h)) (j : Text)
      → IsStore s
      → lookup j (entries (run grow s ops)) ≡ run_model (λ k. lookup k (entries s)) ops j
  unfolding run run_model
  lookup-run grow s [] j ok = refl
  lookup-run grow s (op ∷ ops) j ok =
      rw (lookup-run grow (apply grow s op) ops j (apply-IsStore grow s op ok))
        (ap (λ m. run_model m ops j) (fun_ext (λ k. apply-model grow s op k ok)))

  -- A store is a map: after any calls of Save, Remove and Reset on a slice in which no key occurs
  -- twice, GetEntry finds what the same calls leave in a map from keys to entries that held what
  -- the slice held.
  pub get_entry-run :
      (grow : ℕ → ℕ) (s : Store h) (ops : List (Op h)) (j : Text)
      → IsStore s
      → get_entry (run grow s ops) j ≡ found_or_empty (run_model (λ k. lookup k (entries s)) ops j)
  get_entry-run grow s ops j ok = rw (get_entry-refines, lookup-run grow s ops j ok)
