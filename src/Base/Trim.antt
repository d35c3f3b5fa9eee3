-- ===== src/Base/Trim.antt =====
-- `str::trim` on UTF-8 bytes, and `str::find` of a byte.
use Prim.Native.Nat.{ℕ, zero, suc}
use mathlib.Core.Bool.{Bool, true, false, ◌&&◌, ◌||◌}
use mathlib.Core.List.{[], ◌∷◌}
use distributed_workbench.Base.Tests.{leb, if◌then◌else◌}
use distributed_workbench.Base.Text.{Str}

abbrev between : ℕ → ℕ → ℕ → Bool
between low high c = leb low c && leb c high

abbrev pub is : ℕ → ℕ → Bool
is a b = leb a b && leb b a

-- The second byte of U+0085 and U+00A0.
abbrev latin_space : Str → Bool
latin_space [] = false
latin_space (d ∷ s) = is d 133 || is d 160

-- The second and third bytes of U+1680, of U+2000 to U+200A, U+2028, U+2029, U+202F and U+205F, and
-- of U+3000.
abbrev wide_space : ℕ → Str → Bool
wide_space c [] = false
wide_space c (d ∷ []) = false
wide_space c (d ∷ e ∷ s) =
    (is c 225 && (is d 154 && is e 128))
    || ((is c 226
          && ((is d 128 && (between 128 138 e || (is e 168 || (is e 169 || is e 175))))
              || (is d 129 && is e 159)))
        || (is c 227 && (is d 128 && is e 128)))

-- How many bytes the white space at the front of a text has, 0 where the first character is none.
unfoldable pub space_width : Str → ℕ
space_width [] = 0
space_width (c ∷ s) =
    if between 9 13 c || is c 32
    then 1
    else if is c 194 && latin_space s
    then 2
    else if wide_space c s
    then 3
    else 0

-- The first argument counts the bytes of a white space that are still to be passed.
unfoldable pub trim_from : ℕ → Str → Str
unfolding space_width
trim_from n [] = []
trim_from (suc n) (c ∷ s) = trim_from n s
trim_from zero (c ∷ s) = elim (space_width (c ∷ s)) [ zero ↦ c ∷ s | suc n ↦ trim_from n s ]

abbrev pub is_empty : Str → Bool
is_empty [] = true
is_empty (c ∷ s) = false

unfoldable pub trim_start : Str → Str
unfolding trim_from
trim_start s = trim_from 0 s

-- A text ends where only white space is left.
unfoldable pub trim_end : Str → Str
unfolding trim_start
trim_end [] = []
trim_end (c ∷ s) = if is_empty (trim_start (c ∷ s)) then [] else c ∷ trim_end s

unfoldable pub trim : Str → Str
unfolding trim_start trim_end
trim s = trim_end (trim_start s)
