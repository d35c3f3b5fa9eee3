-- ===== src/Base/Lines.antt =====
-- `str::lines`, `strip_prefix` and `strip_suffix` of a byte.
use Prim.Native.Nat.{ℕ}
use mathlib.Core.Bool.{true, false}
use mathlib.Core.List.{List, [], ◌∷◌, ◌++◌}
use mathlib.Core.Option.{Option, none, some}
use mathlib.Core.Path.{◌≡◌, refl}
use distributed_workbench.Base.Tests.{if◌then◌else◌}
use distributed_workbench.Base.Text.{Str, bytes}
use distributed_workbench.Base.Trim.{is}

-- `s.strip_prefix(c)`
unfoldable pub strip_first : ℕ → Str → Option Str
strip_first b [] = none
strip_first b (c ∷ s) = if is b c then some s else none

abbrev before : ℕ → Option Str → Option Str
before c none = none
before c (some s) = some (c ∷ s)

-- `s.strip_suffix(c)`
unfoldable pub strip_last : ℕ → Str → Option Str
strip_last b [] = none
strip_last b (c ∷ []) = if is b c then some [] else none
strip_last b (c ∷ d ∷ s) = before c (strip_last b (d ∷ s))

abbrev text_or : Option Str → Str → Str
text_or none s = s
text_or (some t) s = t

-- A line that a line feed has ended loses a carriage return at its end.
abbrev ended : Str → Str
ended line = text_or (strip_last 13 line) line

-- The first argument is the line read so far.
unfoldable pub lines_from : Str → Str → List Str
unfolding strip_last
lines_from [] [] = []
lines_from (d ∷ line) [] = (d ∷ line) ∷ []
lines_from line (c ∷ s) = elim (is c 10) [
  | true ↦ ended line ∷ lines_from [] s
  | false ↦ lines_from (line ++ c ∷ []) s
]

unfoldable pub lines : Str → List Str
unfolding lines_from
lines s = lines_from [] s

lines_of_text : lines (bytes "a\r\n\nb") ≡ bytes "a" ∷ [] ∷ bytes "b" ∷ []
unfolding lines
lines_of_text = refl
