-- ===== src/Base/Replace.antt =====
-- `str::replace` and `str::find`.
use Prim.Native.Nat.{ℕ, zero, suc, ◌-◌}
use mathlib.Core.Bool.{true, false, ◌&&◌}
use mathlib.Core.List.{[], ◌∷◌, ◌++◌}
use mathlib.Core.Option.{Option, none, some}
use distributed_workbench.Base.Lists.{length}
use distributed_workbench.Base.Tests.{leb, if◌then◌else◌}
use distributed_workbench.Base.Text.{Str, starts_with}

-- The first argument counts the bytes of a match that are still to be passed.
unfoldable pub replace_from : ℕ → (from to : Str) → Str → Str
unfolding starts_with
replace_from n from to [] = []
replace_from (suc n) from to (c ∷ s) = replace_from n from to s
replace_from zero from to (c ∷ s) = elim (starts_with (c ∷ s) from) [
  | true ↦ to ++ replace_from (length from - 1) from to s
  | false ↦ c ∷ replace_from zero from to s
]

-- `s.replace(from, to)` where `from` is not empty.
unfoldable pub replace : (from to : Str) → Str → Str
unfolding replace_from
replace from to s = replace_from 0 from to s

abbrev pub behind {ℓ} : {A : Type ℓ} → ℕ → Option (Str × A) → Option (Str × A)
behind c none = none
behind c (some (before, rest)) = some (c ∷ before, rest)

-- `s.split_once(c)`: what stands before the first such byte and what stands after it.
unfoldable pub split_once : ℕ → Str → Option (Str × Str)
split_once b [] = none
split_once b (c ∷ s) = if leb b c && leb c b then some ([], s) else behind c (split_once b s)
