-- ===== src/Base/Map/Order.antt =====
-- The order of a map's keys: an insertion keeps it, and a map is rebuilt from its entries.
use mathlib.Core.Bool.{true}
use mathlib.Core.List.{List, [], ◌∷◌, ◌++◌, append_assoc, append-nil}
use mathlib.Core.Logic.{◌≢◌}
use mathlib.Core.Option.{some}
use mathlib.Core.Path.{◌≡◌, refl, sym, ap, ◌∙◌}
use native.Mathlib.Omega.{arith}
use distributed_workbench.Base.{none}
use distributed_workbench.Base.Map.{Map, lookup, insert, remove, values, none, map_values}
use distributed_workbench.Base.Text.{
  Str, str_lt, str_lt_irrefl, str_lt_trans, str_lt_total, str_lt_asymm,
}

pub lt-ne : (j k : Str) → str_lt j k ≡ true → j ≢ k
lt-ne j k h e = ground (arith, str_lt_irrefl k, rw e at h)

module _ {ℓ} {V : Type ℓ} where
  -- Every key is above `k`.
  abbrev pub Above : Str → Map V → Type 0
  Above k [] = Unit {0}
  Above k ((j, _) ∷ m) = (str_lt k j ≡ true) × Above k m

  abbrev pub IsSorted : Map V → Type 0
  IsSorted [] = Unit {0}
  IsSorted ((k, _) ∷ m) = Above k m × IsSorted m

  Above-trans : (k j : Str) (m : Map V) → str_lt k j ≡ true → Above j m → Above k m
  Above-trans k j [] h a = tt
  Above-trans k j ((i, _) ∷ m) h a = (str_lt_trans k j i h a.0, Above-trans k j m h a.1)

  Above-insert :
      (k j : Str) (v : V) (m : Map V) → str_lt k j ≡ true → Above k m → Above k (insert j v m)
  unfolding insert
  Above-insert k j v [] h a = (h, tt)
  Above-insert k j v ((i, w) ∷ m) h a = ground (arith, Above-insert k j v m h a.1)

  Above-remove : (k j : Str) (m : Map V) → Above k m → Above k (remove j m)
  unfolding remove
  Above-remove k j [] a = tt
  Above-remove k j ((i, w) ∷ m) a = ground (arith, Above-remove k j m a.1)

  pub insert-IsSorted : (k : Str) (v : V) (m : Map V) → IsSorted m → IsSorted (insert k v m)
  unfolding insert
  insert-IsSorted k v [] s = (tt, tt)
  insert-IsSorted k v ((j, w) ∷ m) s =
      ground (
        arith,
        insert-IsSorted k v m s.1,
        str_lt_total k j,
        Above-trans k j m,
        Above-insert j k v m,
      )

  pub remove-IsSorted : (k : Str) (m : Map V) → IsSorted m → IsSorted (remove k m)
  unfolding remove
  remove-IsSorted k [] s = tt
  remove-IsSorted k ((j, w) ∷ m) s = ground (arith, remove-IsSorted k m s.1, Above-remove j k m s.0)

  -- Every key is below `k`.
  abbrev Below : Str → Map V → Type 0
  Below k [] = Unit {0}
  Below k ((j, _) ∷ m) = (str_lt j k ≡ true) × Below k m

  -- A key above all others goes to the end.
  insert-last : (k : Str) (v : V) (m : Map V) → Below k m → insert k v m ≡ m ++ ((k, v) ∷ [])
  unfolding insert
  insert-last k v [] b = refl
  insert-last k v ((j, w) ∷ m) b =
      ground (arith, insert-last k v m b.1, lt-ne j k b.0, str_lt_asymm j k b.0)

  Below-snoc :
      (k j : Str) (v : V) (m : Map V) → Below k m → str_lt j k ≡ true → Below k (m ++ ((j, v) ∷ []))
  Below-snoc k j v [] b h = (h, tt)
  Below-snoc k j v ((i, w) ∷ m) b h = (b.0, Below-snoc k j v m b.1 h)

  -- Every key of the first map is below every key of the second.
  abbrev Precedes : Map V → Map V → Type 0
  Precedes a [] = Unit {0}
  Precedes a ((k, _) ∷ m) = Below k a × Precedes a m

  Precedes-nil : (m : Map V) → Precedes [] m
  Precedes-nil [] = tt
  Precedes-nil ((k, _) ∷ m) = (tt, Precedes-nil m)

  Precedes-snoc :
      (a m : Map V) (k : Str) (v : V) → Precedes a m → Above k m → Precedes (a ++ ((k, v) ∷ [])) m
  Precedes-snoc a [] k v p h = tt
  Precedes-snoc a ((j, _) ∷ m) k v p h = (Below-snoc j k v a p.0 h.0, Precedes-snoc a m k v p.1 h.1)

  abbrev pub AllEntries {κ} : (Str → V → Type κ) → Map V → Type κ
  AllEntries P [] = Unit
  AllEntries P ((k, v) ∷ m) = P k v × AllEntries P m

  -- Each value stands under its own key.
  abbrev pub IsKeyed : (V → Str) → Map V → Type 0
  IsKeyed key [] = Unit {0}
  IsKeyed key ((k, v) ∷ m) = (key v ≡ k) × IsKeyed key m

  -- `for v in values { map.insert(v.key, v) }`
  unfoldable pub collect : (V → Str) → List V → Map V → Map V
  collect key [] a = a
  collect key (v ∷ vs) a = collect key vs (insert (key v) v a)

  collect-append :
      (key : V → Str) (m a : Map V)
      → IsKeyed key m
      → IsSorted m
      → Precedes a m
      → collect key (values m) a ≡ a ++ m
  unfolding collect
  collect-append key [] a h s p = sym (append-nil a)
  collect-append key ((k, v) ∷ m) a h s p =
      ap (collect key (values m)) (rw h.0 (insert-last k v a p.0))
      ∙ collect-append key m (a ++ ((k, v) ∷ [])) h.1 s.1 (Precedes-snoc a m k v p.1 s.0)
      ∙ append_assoc a ((k, v) ∷ []) m

  -- A sorted map is rebuilt from its values.
  pub collect-values :
      (key : V → Str) (m : Map V) → IsKeyed key m → IsSorted m → collect key (values m) [] ≡ m
  collect-values key m h s = collect-append key m [] h s (Precedes-nil m)

  pub insert-IsKeyed :
      (key : V → Str) (k : Str) (v : V) (m : Map V)
      → key v ≡ k
      → IsKeyed key m
      → IsKeyed key (insert k v m)
  unfolding insert
  insert-IsKeyed key k v [] e h = (e, tt)
  insert-IsKeyed key k v ((j, w) ∷ m) e h = ground (arith, insert-IsKeyed key k v m e h.1)

  pub remove-IsKeyed :
      (key : V → Str) (k : Str) (m : Map V) → IsKeyed key m → IsKeyed key (remove k m)
  unfolding remove
  remove-IsKeyed key k [] h = tt
  remove-IsKeyed key k ((j, w) ∷ m) h = ground (arith, remove-IsKeyed key k m h.1)

  pub collect-IsKeyed :
      (key : V → Str) (vs : List V) (a : Map V) → IsKeyed key a → IsKeyed key (collect key vs a)
  unfolding collect
  collect-IsKeyed key [] a h = h
  collect-IsKeyed key (v ∷ vs) a h =
      collect-IsKeyed key vs _ (insert-IsKeyed key (key v) v a refl h)

  pub collect-IsSorted :
      (key : V → Str) (vs : List V) (a : Map V) → IsSorted a → IsSorted (collect key vs a)
  unfolding collect
  collect-IsSorted key [] a s = s
  collect-IsSorted key (v ∷ vs) a s = collect-IsSorted key vs _ (insert-IsSorted (key v) v a s)

  -- What is found under a key carries that key.
  pub lookup-IsKeyed :
      (key : V → Str) (k : Str) (m : Map V) (v : V)
      → IsKeyed key m
      → lookup k m ≡ some v
      → key v ≡ k
  unfolding lookup
  lookup-IsKeyed key k [] v h e = cc
  lookup-IsKeyed key k ((j, w) ∷ m) v h e = ground (arith, lookup-IsKeyed key k m v h.1)

  pub Above-lookup : (k : Str) (m : Map V) → Above k m → lookup k m ≡ none
  unfolding lookup
  Above-lookup k [] a = refl
  Above-lookup k ((j, w) ∷ m) a = ground (arith, Above-lookup k m a.1, lt-ne k j a.0)

  -- Writing what is there changes nothing.
  pub insert-lookup :
      (k : Str) (v : V) (m : Map V) → IsSorted m → lookup k m ≡ some v → insert k v m ≡ m
  unfolding insert lookup
  insert-lookup k v [] s e = cc
  insert-lookup k v ((j, w) ∷ m) s e =
      ground (arith, insert-lookup k v m s.1, Above-lookup k m, Above-trans k j m)

  -- In a sorted map every entry is found.
  pub All-lookup {κ} :
      (P : Str → V → Type κ) (m : Map V)
      → IsSorted m
      → ((k : Str) (v : V) → lookup k m ≡ some v → P k v)
      → AllEntries P m
  unfolding lookup
  All-lookup P [] s h = tt
  All-lookup P ((k, v) ∷ m) s h = (
    h k v (ground arith),
    All-lookup P m s.1 (λ j w e. h j w (ground (arith, Above-lookup k m s.0))),
  )

module _ {ℓ} {V : Type ℓ} (f : V → V) where
  Above-map_values : (k : Str) (m : Map V) → Above k m → Above k (map_values f m)
  Above-map_values k [] a = tt
  Above-map_values k ((j, v) ∷ m) a = (a.0, Above-map_values k m a.1)

  pub map_values-IsSorted : (m : Map V) → IsSorted m → IsSorted (map_values f m)
  map_values-IsSorted [] s = tt
  map_values-IsSorted ((k, v) ∷ m) s = (Above-map_values k m s.0, map_values-IsSorted m s.1)

pub map_values-IsKeyed {ℓ} :
    {V : Type ℓ} (key : V → Str) (f : V → V)
    → ((v : V) → key (f v) ≡ key v)
    → (m : Map V) → IsKeyed key m
    → IsKeyed key (map_values f m)
map_values-IsKeyed key f same [] h = tt
map_values-IsKeyed key f same ((k, v) ∷ m) h = (same v ∙ h.0, map_values-IsKeyed key f same m h.1)
