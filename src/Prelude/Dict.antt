-- ===== src/Prelude/Dict.antt =====
-- Go maps from strings, as lists of pairs with no key twice. The order of a map is not observed.
use openscraper_framework.Prelude.Tests.{if◌then◌else◌, is_none}
use openscraper_framework.Prelude.Lists.{length}
use openscraper_framework.Prelude.Text.{Text, eqb, eqb_iff}
use Prim.Native.Nat.{suc}
use mathlib.Core.Path.{◌≡◌, refl}
use mathlib.Core.Option.{Option, none, some}
use mathlib.Core.List.{List, [], ◌∷◌}
use native.Mathlib.Omega.{arith}

abbrev pub Dict {ℓ} : Type ℓ → Type ℓ
Dict V = List (Text × V)

module _ {ℓ} {V : Type ℓ} where
  unfoldable pub get : Text → Dict V → Option V
  get k [] = none
  get k ((j, v) ∷ m) = if eqb j k then some v else get k m

  unfoldable pub put : Text → V → Dict V → Dict V
  put k v [] = (k, v) ∷ []
  put k v ((j, w) ∷ m) = if eqb j k then (j, v) ∷ m else (j, w) ∷ put k v m

  unfoldable pub delete : Text → Dict V → Dict V
  delete k [] = []
  delete k ((j, w) ∷ m) = if eqb j k then m else (j, w) ∷ delete k m

  abbrev pub IsUnique : Dict V → Type ℓ
  IsUnique [] = Unit
  IsUnique ((j, w) ∷ m) = (get j m ≡ none) × IsUnique m

  pub get-put :
      (k j : Text) (v : V) (m : Dict V) → get j (put k v m) ≡ (if eqb k j then some v else get j m)
  unfolding get put
  get-put k j v [] = refl
  get-put k j v ((i, w) ∷ m) =
      ground (arith, get-put k j v m, eqb_iff i k, eqb_iff i j, eqb_iff k j)

  pub get-delete :
      (k j : Text) (m : Dict V)
      → IsUnique m
      → get j (delete k m) ≡ (if eqb k j then none else get j m)
  unfolding get delete
  get-delete k j [] u = ground arith
  get-delete k j ((i, w) ∷ m) u =
      ground (arith, get-delete k j m u.1, eqb_iff i k, eqb_iff i j, eqb_iff k j)

  pub put-IsUnique : (k : Text) (v : V) (m : Dict V) → IsUnique m → IsUnique (put k v m)
  unfolding get put
  put-IsUnique k v [] u = (refl, tt)
  put-IsUnique k v ((i, w) ∷ m) u =
      ground (arith, get-put k i v m, put-IsUnique k v m u.1, eqb_iff i k, eqb_iff k i)

  pub delete-IsUnique : (k : Text) (m : Dict V) → IsUnique m → IsUnique (delete k m)
  unfolding get delete
  delete-IsUnique k [] u = tt
  delete-IsUnique k ((i, w) ∷ m) u = ground (arith, get-delete k i m u.1, delete-IsUnique k m u.1)

  pub length-put :
      (k : Text) (v : V) (m : Dict V)
      → length (put k v m) ≡ (if is_none (get k m) then suc (length m) else length m)
  unfolding get put
  length-put k v [] = refl
  length-put k v ((i, w) ∷ m) = ground (arith, length-put k v m)

  pub length-delete :
      (k : Text) (m : Dict V)
      → length m ≡ (if is_none (get k m) then length (delete k m) else suc (length (delete k m)))
  unfolding get delete
  length-delete k [] = refl
  length-delete k ((i, w) ∷ m) = ground (arith, length-delete k m)
