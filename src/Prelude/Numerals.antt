-- ===== src/Prelude/Numerals.antt =====
-- `strconv.Atoi`: a decimal text as an `int` of 64 bits.
pub mod Writing
use Prim.Native.Nat.{ℕ, zero, suc, ◌+◌, ◌-◌, ◌*◌, ◌≤◌, ◌<◌, ◌^◌}
use mathlib.Core.Bool.{Bool, true, false, ◌&&◌}
use mathlib.Core.List.{List, [], ◌∷◌}
use mathlib.Core.Option.{Option, none, some}
use version_aware_code_mcp.Prelude.Tests.{if◌then◌else◌, ◌==◌, leb}
use version_aware_code_mcp.Prelude.Texts.{Text}
use version_aware_code_mcp.Prelude.Int.{ℤ, pos, negsuc}

abbrev pub is_digit : ℕ → Bool
is_digit c = leb 48 c && leb c 57

-- The digits' value behind `n`.
unfoldable pub digits_value : ℕ → Text → Option ℕ
digits_value n [] = some n
digits_value n (c ∷ s) =
    let rest = digits_value (n * 10 + (c - 48)) s in if is_digit c then rest else none

abbrev pub max_int : ℕ
max_int = 2 ^ 63 - 1

abbrev at_most_max : Option ℕ → Option ℤ
at_most_max none = none
at_most_max (some n) = if leb n max_int then some (pos n) else none

abbrev negated : ℕ → ℤ
negated zero = pos 0
negated (suc n) = negsuc n

abbrev at_least_min : Option ℕ → Option ℤ
at_least_min none = none
at_least_min (some n) = if leb n (2 ^ 63) then some (negated n) else none

unfoldable pub some_digits : Text → Option ℕ
unfolding digits_value
some_digits [] = none
some_digits (c ∷ s) = digits_value 0 (c ∷ s)

unfoldable pub atoi : Text → Option ℤ
unfolding some_digits
atoi [] = none
atoi (c ∷ s) =
    if c == 45
    then at_least_min (some_digits s)
    else if c == 43
    then at_most_max (some_digits s)
    else at_most_max (some_digits (c ∷ s))
