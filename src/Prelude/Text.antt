-- ===== src/Prelude/Text.antt =====
-- Go strings: sequences of bytes.
use openscraper_framework.Prelude.Tests.{◌==◌}
use Prim.Native.Nat.{ℕ}
use Prim.Native.Char.{code}
use Prim.Native.String.{String}
use mathlib.Core.Path.{◌≡◌, refl, subst}
use mathlib.Core.Logic.{◌↔◌}
use mathlib.Core.Bool.{Bool, true, false, ◌&&◌}
use mathlib.Core.List.{List, [], ◌∷◌}
use native.Mathlib.Omega.{arith}

abbrev pub Text : Type 0
Text = List ℕ

-- The bytes of an ASCII literal.
abbrev pub bytes : String → Text
bytes String.[] = []
bytes (String.◌∷◌ c s) = code c ∷ bytes s

unfoldable pub eqb : Text → Text → Bool
eqb [] [] = true
eqb (a ∷ s) (b ∷ t) = (a == b) && eqb s t
eqb _ _ = false

pub eqb→eq : (s t : Text) → eqb s t ≡ true → s ≡ t
unfolding eqb
eqb→eq [] [] h = refl
eqb→eq [] (b ∷ t) h = cc
eqb→eq (a ∷ s) [] h = cc
eqb→eq (a ∷ s) (b ∷ t) h = ground (arith, eqb→eq s t)

pub eqb_refl : (s : Text) → eqb s s ≡ true
unfolding eqb
eqb_refl [] = refl
eqb_refl (a ∷ s) = ground (arith, eqb_refl s)

pub eqb_iff : (s t : Text) → (eqb s t ≡ true) ↔ (s ≡ t)
eqb_iff s t = (eqb→eq s t, λ e. subst (λ x. eqb s x ≡ true) e (eqb_refl s))
