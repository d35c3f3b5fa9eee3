-- ===== src/Base/Map/Without.antt =====
-- A map without the keys of a set, and the weight of what is left.
use distributed_workbench.Base.{
  Str, ◌≡◌, ℕ, [], Option, List, Bool, ◌∷◌, sym, none, if◌then◌else◌, false, ◌∙◌, ◌==◌, ◌+◌, some,
  arith, ap, ◌||◌, true, refl,
}
use distributed_workbench.Base.Map.{Map, lookup, remove, values, insert, lookup-insert}
use distributed_workbench.Base.Map.Order.{IsSorted, Above-lookup}

-- A `BTreeSet<String>`.
abbrev pub IdSet : Type 0
IdSet = Map (Unit {0})

abbrev pub is_there {ℓ} : {A : Type ℓ} → Option A → Bool
is_there none = false
is_there (some u) = true

abbrev pub member : Str → IdSet → Bool
member id ids = is_there (lookup id ids)

abbrev pub keys {ℓ} : {V : Type ℓ} → Map V → List Str
keys [] = []
keys ((k, _) ∷ m) = k ∷ keys m

unfoldable pub listed : Str → List Str → Bool
listed k [] = false
listed k (j ∷ js) = j == k || listed k js

pub listed-keys : (k : Str) (ids : IdSet) → listed k (keys ids) ≡ member k ids
unfolding listed lookup
listed-keys k [] = refl
listed-keys k ((j, u) ∷ ids) = ground (arith, listed-keys k ids)

module _ {ℓ} {V : Type ℓ} where
  -- The entries whose key is not listed.
  unfoldable pub without : List Str → Map V → Map V
  without ks [] = []
  without ks ((j, v) ∷ m) = let rest = without ks m in if listed j ks then rest else (j, v) ∷ rest

  unfoldable pub remove_keys : List Str → Map V → Map V
  remove_keys [] m = m
  remove_keys (k ∷ ks) m = remove_keys ks (remove k m)

  without-nil : (m : Map V) → without [] m ≡ m
  unfolding without listed
  without-nil [] = refl
  without-nil ((j, v) ∷ m) = ap (◌∷◌ (j, v)) (without-nil m)

  without-cons :
      (k : Str) (ks : List Str) (m : Map V) → without (k ∷ ks) m ≡ without ks (remove k m)
  unfolding without listed remove
  without-cons k ks [] = refl
  without-cons k ks ((j, v) ∷ m) = ground (arith, without-cons k ks m)

  pub remove_keys-without : (ks : List Str) (m : Map V) → remove_keys ks m ≡ without ks m
  unfolding remove_keys
  remove_keys-without [] m = sym (without-nil m)
  remove_keys-without (k ∷ ks) m = remove_keys-without ks (remove k m) ∙ sym (without-cons k ks m)

  pub lookup-without :
      (k : Str) (ks : List Str) (m : Map V)
      → lookup k (without ks m) ≡ (if listed k ks then none else lookup k m)
  unfolding without lookup
  lookup-without k ks [] = ground arith
  lookup-without k ks ((j, v) ∷ m) = ground (arith, lookup-without k ks m)

  -- The weight of a list, and of the entries whose key is not in the set.
  abbrev pub total : (V → ℕ) → List V → ℕ
  total w [] = 0
  total w (v ∷ vs) = w v + total w vs

  unfoldable pub left : (V → ℕ) → IdSet → Map V → ℕ
  left w ids [] = 0
  left w ids ((k, v) ∷ m) = (if member k ids then 0 else w v) + left w ids m

  pub total-without :
      (w : V → ℕ) (ids : IdSet) (m : Map V) → total w (values (without (keys ids) m)) ≡ left w ids m
  unfolding without left
  total-without w ids [] = refl
  total-without w ids ((k, v) ∷ m) = ground (arith, total-without w ids m, listed-keys k ids)

  left-absent :
      (w : V → ℕ) (ids : IdSet) (k : Str) (m : Map V)
      → lookup k m ≡ none
      → left w (insert k tt ids) m ≡ left w ids m
  unfolding left lookup
  left-absent w ids k [] h = refl
  left-absent w ids k ((j, v) ∷ m) h =
      ground (arith, left-absent w ids k m, lookup-insert j k tt ids)

  -- A key that joins the set takes its entry's weight away.
  pub left-insert :
      (w : V → ℕ) (ids : IdSet) (k : Str) (v : V) (m : Map V)
      → IsSorted m
      → lookup k m ≡ some v
      → lookup k ids ≡ none
      → left w (insert k tt ids) m + w v ≡ left w ids m
  unfolding left lookup
  left-insert w ids k v [] s found free = cc
  left-insert w ids k v ((j, u) ∷ m) s found free = ground (
    arith,
    left-insert w ids k v m s.1,
    left-absent w ids k m,
    Above-lookup j m s.0,
    lookup-insert j k tt ids,
  )
