-- ===== src/Base/Double.antt =====
-- Finite `f64` values as their bits: the conversion from an integer, and the order.
use Prim.Native.Nat.{ℕ, zero, suc, ◌+◌, ◌-◌, ◌*◌, ◌/◌, ◌%◌, ◌^◌}
use mathlib.Core.Path.{◌≡◌, refl}
use mathlib.Core.Bool.{Bool, true, false, not, ◌&&◌, ◌||◌}
use distributed_workbench.Base.{◌≡◌, refl}
use distributed_workbench.Base.Tests.{leb, ltb, if◌then◌else◌}

-- The exponent of the highest power of two in a number below 2 ^ fuel.
unfoldable pub ilog2 : ℕ → ℕ → ℕ
ilog2 zero n = 0
ilog2 (suc fuel) n = elim (ltb n 2) [ true ↦ 0 | false ↦ suc (ilog2 fuel (n / 2)) ]

-- Whether the part that is cut off rounds up: to the nearest, and to an even last bit between two.
abbrev rounds_up : (kept cut half : ℕ) → Bool
rounds_up kept cut half = ltb half cut || (leb half cut && (leb cut half && leb 1 (kept % 2)))

-- The bits of n = kept * 2 ^ (e - 52) + cut; rounding may carry into the exponent.
abbrev packed : (n e : ℕ) → ℕ
packed n e =
    if leb e 52
    then (1023 + e) * 2 ^ 52 + (n * 2 ^ (52 - e) - 2 ^ 52)
    else (1023 + e) * 2 ^ 52
      + (n / 2 ^ (e - 52) - 2 ^ 52)
      + (if rounds_up (n / 2 ^ (e - 52)) (n % 2 ^ (e - 52)) (2 ^ (e - 53)) then 1 else 0)

-- `n as f64` for a `u64`.
unfoldable pub double_from : ℕ → ℕ
unfolding ilog2
double_from zero = 0
double_from (suc n) = packed (suc n) (ilog2 64 (suc n))

-- 2 ^ 63, the bit of the sign.
abbrev sign_bit : ℕ
sign_bit = 9223372036854775808

abbrev pub double_neg : ℕ → ℕ
double_neg a = a + sign_bit

abbrev magnitude : ℕ → ℕ
magnitude a = a % sign_bit

-- `a < b` on finite doubles.
unfoldable pub double_lt : ℕ → ℕ → Bool
double_lt a b =
    if ltb a sign_bit
    then ltb b sign_bit && ltb a b
    else if ltb b sign_bit
    then not (leb (magnitude a) 0 && leb b 0)
    else ltb (magnitude b) (magnitude a)

double_of_three : double_from 3 ≡ 4613937818241073152
unfolding double_from
double_of_three = refl

double_of_wide : double_from 9007199254740993 ≡ 4845873199050653696
unfolding double_from
double_of_wide = refl

double_order : double_lt (double_neg (double_from 3)) (double_from 2) ≡ true
unfolding double_lt double_from
double_order = refl
