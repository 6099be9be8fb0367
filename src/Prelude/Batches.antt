-- ===== src/Prelude/Batches.antt =====
-- Batches of a list: sequences of lists, one after the other.
use openscraper_framework.Prelude.Lists.{All}
use mathlib.Core.Path.{◌≡◌, sym, ap, ◌∙◌}
use mathlib.Core.List.{List, [], ◌∷◌, ◌++◌, append_assoc, append-nil}

module _ {A : Type 0} where
  abbrev pub concat : List (List A) → List A
  concat [] = []
  concat (xs ∷ xss) = xs ++ concat xss

  pub concat-snoc : (xss : List (List A)) (xs : List A) → concat (xss ++ xs ∷ []) ≡ concat xss ++ xs
  concat-snoc [] xs = append-nil xs
  concat-snoc (ys ∷ xss) xs =
      ap (λ l. ys ++ l) (concat-snoc xss xs) ∙ sym (append_assoc ys (concat xss) xs)

  pub All-snoc : (P : A → Type 0) (xs : List A) (x : A) → All P xs → P x → All P (xs ++ x ∷ [])
  All-snoc P [] x a p = (p, tt)
  All-snoc P (y ∷ xs) x a p = (a.0, All-snoc P xs x a.1 p)
