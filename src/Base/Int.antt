-- ===== src/Base/Int.antt =====
-- Python's `int` on a text of ASCII characters, and the part of the integers that the program
-- reads from its environment.
use open_simple_agent.Base.Tests.{eqb, leb, if◌then◌else◌}
use open_simple_agent.Base.Text.{Text}
use Prim.Native.Nat.{ℕ, zero, suc, ◌+◌, ◌-◌, ◌*◌}
use mathlib.Core.Bool.{Bool, true, false, ◌&&◌, ◌||◌}
use mathlib.Core.Option.{Option, none, some}
use mathlib.Core.List.{[], ◌∷◌, reverse}

-- `negsuc n` is -(n + 1).
pub data ℤ : Type 0 where
  pos : ℕ → ℤ
  negsuc : ℕ → ℤ

-- white space among the ASCII characters
is_space : ℕ → Bool
is_space c = (leb 9 c && leb c 13) || (leb 28 c && leb c 32)

-- `s.lstrip()`
strip_left : Text → Text
unfolding is_space
strip_left [] = []
strip_left (c ∷ s) = if is_space c then strip_left s else c ∷ s

-- `s.strip()`
unfoldable pub strip : Text → Text
unfolding strip_left
strip s = reverse (strip_left (reverse (strip_left s)))

-- Digits, with single underscores between them; `after_digit` tells what stands before.
digits : Bool → ℕ → Text → Option ℕ
digits true acc [] = some acc
digits false acc [] = none
digits after_digit acc (c ∷ s) =
    let on_digit = digits true (acc * 10 + (c - 48)) s in
    let on_underscore = digits false acc s in
    if leb 48 c && leb c 57
    then on_digit
    else if eqb c 95 && after_digit
    then on_underscore
    else none

negate : ℕ → ℤ
negate zero = pos 0
negate (suc n) = negsuc n

signed : Text → Option ℤ
unfolding digits negate
signed [] = none
signed (c ∷ s) =
    if eqb c 45
    then (elim (digits false 0 s) [ none ↦ none | some n ↦ some (negate n) ])
    else if eqb c 43
    then (elim (digits false 0 s) [ none ↦ none | some n ↦ some (pos n) ])
    else (elim (digits false 0 (c ∷ s)) [ none ↦ none | some n ↦ some (pos n) ])

-- `int(s)`, with `none` for a `ValueError`
unfoldable pub parse_int : Text → Option ℤ
unfolding signed strip
parse_int s = signed (strip s)
