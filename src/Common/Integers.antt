-- ===== src/Common/Integers.antt =====
-- Go's `int` where it may be negative, and `strconv.Atoi`.
use Prim.Native.Nat.{ℕ, zero, suc, ◌+◌, ◌*◌, ◌-◌}
use Prim.Native.String.{String}
use mathlib.Core.Path.{◌≡◌, refl}
use mathlib.Core.Bool.{Bool, ◌&&◌}
use mathlib.Core.Option.{Option, none, some}
use mathlib.Core.List.{List, [], ◌∷◌}
use senior_project.Common.Tests.{if◌then◌else◌, leb, ◌==◌}
use senior_project.Common.Texts.{codes}

pub data ℤ : Type 0 where
  pos negsuc : ℕ → ℤ

abbrev pub is_digit : ℕ → Bool
is_digit c = leb 48 c && leb c 57

unfoldable pub digits : ℕ → List ℕ → Option ℕ
digits acc [] = some acc
digits acc (c ∷ cs) =
    let rest = digits (acc * 10 + (c - 48)) cs in if is_digit c then rest else none

unfoldable pub magnitude : List ℕ → Option ℕ
unfolding digits
magnitude [] = none
magnitude (c ∷ cs) = digits 0 (c ∷ cs)

-- The range of a 64-bit `int`.
unfoldable pub positive : Option ℕ → Option ℤ
positive none = none
positive (some n) = if leb n 9223372036854775807 then some (pos n) else none

unfoldable pub negative : Option ℕ → Option ℤ
negative none = none
negative (some zero) = some (pos 0)
negative (some (suc n)) = if leb n 9223372036854775807 then some (negsuc n) else none

unfoldable pub signed_digits : List ℕ → Option ℤ
unfolding magnitude positive negative
signed_digits [] = none
signed_digits (c ∷ cs) =
    if c == 45
    then negative (magnitude cs)
    else if c == 43
    then positive (magnitude cs)
    else positive (magnitude (c ∷ cs))

unfoldable pub atoi : String → Option ℤ
unfolding signed_digits
atoi s = signed_digits (codes s)

-- `v < low || v > high` does not hold, for a `low` that is not negative.
abbrev pub within : ℕ → ℕ → ℤ → Option ℕ
within low high (pos n) = if leb low n && leb n high then some n else none
within low high (negsuc n) = none

test-atoi : (atoi "-12" ≡ some (negsuc 11)) × (atoi "100" ≡ some (pos 100)) × (atoi "1x" ≡ none)
unfolding atoi signed_digits magnitude digits positive negative
test-atoi = (refl, refl, refl)

test-range : atoi "9223372036854775808" ≡ none
unfolding atoi signed_digits magnitude digits positive negative
test-range = refl
