-- ===== src/Base/Text.antt =====
-- Texts as their code points, so that the slices and concatenations of the program compute.
use Prim.Native.Nat.{ℕ}
use Prim.Native.Char.{code}
use Prim.Native.String.{String}
use mathlib.Core.Path.{◌≡◌, refl}
use mathlib.Core.Logic.{◌↔◌}
use mathlib.Core.Bool.{Bool, true, false, ◌&&◌}
use mathlib.Core.Option.{Option, none, some}
use mathlib.Core.List.{List, [], ◌∷◌, ◌++◌}
use native.Mathlib.Omega.{arith}
use open_simple_agent.Base.Tests.{eqb}
use open_simple_agent.Base.Same.{Same, ◌==◌, option_eq, option_same_iff}

abbrev pub Text : Type 0
Text = List ℕ

abbrev pub text : String → Text
text String.[] = []
text (String.◌∷◌ c s) = code c ∷ text s

unfoldable pub text_same : Text → Text → Bool
text_same [] [] = true
text_same (a ∷ s) (b ∷ t) = eqb a b && text_same s t
text_same _ _ = false

pub text_same_iff : (s t : Text) → (text_same s t ≡ true) ↔ (s ≡ t)
unfolding text_same
text_same_iff [] [] = ground arith
text_same_iff (a ∷ s) (b ∷ t) = ground (arith, text_same_iff s t)
text_same_iff [] (b ∷ t) = ground arith
text_same_iff (a ∷ s) [] = ground arith

-- equality of lists of texts
unfoldable pub texts_same : List Text → List Text → Bool
texts_same [] [] = true
texts_same (s ∷ ss) (t ∷ ts) = text_same s t && texts_same ss ts
texts_same _ _ = false

instance abbrev pub text_eq : Same Text
text_eq = record { same = text_same; same_iff = text_same_iff }

-- `value or default` for a text: the empty text and `None` are both false
abbrev pub or_else : Option Text → Text → Text
or_else none d = d
or_else (some []) d = d
or_else (some (c ∷ s)) d = c ∷ s

-- `not value`
abbrev pub is_empty : Text → Bool
is_empty [] = true
is_empty (_ ∷ _) = false

-- `s.startswith(p)`
unfoldable pub starts_with : Text → Text → Bool
starts_with [] s = true
starts_with (a ∷ p) [] = false
starts_with (a ∷ p) (b ∷ s) = eqb a b && starts_with p s

pub starts_with-append : (p s : Text) → starts_with p (p ++ s) ≡ true
unfolding starts_with
starts_with-append [] s = refl
starts_with-append (a ∷ p) s = ground (arith, starts_with-append p s)

pub option_text_iff : (a b : Option Text) → ((a == b) ≡ true) ↔ (a ≡ b)
option_text_iff a b = option_same_iff a b
