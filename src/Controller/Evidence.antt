-- ===== src/Controller/Evidence.antt =====
-- What the controller keeps of a result: `compact_value` of crates/workbench-runtime/src/controller.rs.
use distributed_workbench.Base.{
  ℕ, Str, bytes, Bool, true, false, ◌||◌, Option, none, some, ◌==◌, if◌then◌else◌, ◌≡◌, refl, arith,
  ◌↔◌, ap, Bool-cases, inl, inr, Str-discrete, ℕ_discrete, subst,
}
use distributed_workbench.Controller.{count}
use distributed_workbench.Json.{
  Value, Values, Fields, null, boolean, number, string, array, object, nil, cons, end, field,
  unsigned, get_field,
}
use distributed_workbench.Json.Objects.{insert_field}

abbrev evaluations_key : Str
evaluations_key = bytes "nativeEvaluations"

abbrev count_key : Str
count_key = bytes "nativeObservationCount"

-- `evaluations.as_array().map_or(0, Vec::len)`
abbrev array_len : Value → ℕ
array_len (array vs) = count vs
array_len _ = 0

-- The removed field's count takes its place.
abbrev compact_object : Option Value → Fields × Bool → Value × Bool
compact_object none (fs, changed) = (object fs, changed)
compact_object (some evaluations) (fs, changed) =
    (object (insert_field count_key (number (unsigned (array_len evaluations))) fs), true)

-- The new value, and whether the call changed it. The loop over an object's children passes the
-- removed field over, and finds nothing to do in the number that takes its place.
unfoldable mutual
  pub compact_value : Value → Value × Bool
  compact_value (object fs) = compact_object (get_field evaluations_key fs) (compact_fields fs)
  compact_value (array vs) = (array (compact_items vs).0, (compact_items vs).1)
  compact_value null = (null, false)
  compact_value (boolean b) = (boolean b, false)
  compact_value (number n) = (number n, false)
  compact_value (string s) = (string s, false)

  pub compact_fields : Fields → Fields × Bool
  compact_fields end = (end, false)
  compact_fields (field k v fs) = if k == evaluations_key then compact_fields fs else (
    field k (compact_value v).0 (compact_fields fs).0,
    (compact_value v).1 || (compact_fields fs).1,
  )

  pub compact_items : Values → Values × Bool
  compact_items nil = (nil, false)
  compact_items (cons v vs) =
      (cons (compact_value v).0 (compact_items vs).0, (compact_value v).1 || (compact_items vs).1)

-- No object, at any depth, has a field `nativeEvaluations`.
abbrev mutual
  pub IsCompact : Value → Type 0
  IsCompact (object fs) = AreCompactFields fs
  IsCompact (array vs) = AreCompact vs
  IsCompact null = Unit {0}
  IsCompact (boolean b) = Unit {0}
  IsCompact (number n) = Unit {0}
  IsCompact (string s) = Unit {0}

  pub AreCompactFields : Fields → Type 0
  AreCompactFields end = Unit {0}
  AreCompactFields (field k v fs) =
      ((k == evaluations_key) ≡ false) × IsCompact v × AreCompactFields fs

  pub AreCompact : Values → Type 0
  AreCompact nil = Unit {0}
  AreCompact (cons v vs) = IsCompact v × AreCompact vs

insert-AreCompactFields :
    (k : Str) (n : ℕ) (fs : Fields)
    → (k == evaluations_key) ≡ false
    → AreCompactFields fs
    → AreCompactFields (insert_field k (number (unsigned n)) fs)
unfolding insert_field
insert-AreCompactFields k n end d h = (d, tt, tt)
insert-AreCompactFields k n (field j v fs) d h =
    ground (arith, insert-AreCompactFields k n fs d h.2)

count_key_other : (count_key == evaluations_key) ≡ false
unfolding Str-discrete ℕ_discrete
count_key_other = refl

compact_object-IsCompact :
    (found : Option Value) (r : Fields × Bool)
    → AreCompactFields r.0
    → IsCompact (compact_object found r).0
compact_object-IsCompact none r h = h
compact_object-IsCompact (some v) r h =
    insert-AreCompactFields count_key (array_len v) r.0 count_key_other h

mutual
  unfolding compact_value

  value-IsCompact : (v : Value) → IsCompact (compact_value v).0
  value-IsCompact (object fs) =
      compact_object-IsCompact (get_field evaluations_key fs) (compact_fields fs)
        (fields-AreCompact fs)
  value-IsCompact (array vs) = items-AreCompact vs
  value-IsCompact null = tt
  value-IsCompact (boolean b) = tt
  value-IsCompact (number n) = tt
  value-IsCompact (string s) = tt

  fields-AreCompact : (fs : Fields) → AreCompactFields (compact_fields fs).0
  fields-AreCompact end = tt
  fields-AreCompact (field k v fs) = elim (Bool-cases (k == evaluations_key)) [
    | inl gone ↦ rw gone (fields-AreCompact fs)
    | inr kept ↦ rw kept (kept, value-IsCompact v, fields-AreCompact fs)
  ]

  items-AreCompact : (vs : Values) → AreCompact (compact_items vs).0
  items-AreCompact nil = tt
  items-AreCompact (cons v vs) = (value-IsCompact v, items-AreCompact vs)

mutual
  unfolding compact_value get_field

  compact_same : (v : Value) → IsCompact v → compact_value v ≡ (v, false)
  compact_same (object fs) h =
      let none_left : get_field evaluations_key fs ≡ none = fields_without fs h in
      rw (none_left, compact_value)
        (ap {A = Fields × Bool} {B = Value × Bool} (λ r. compact_object none r) (fields_same fs h))
  compact_same (array vs) h =
      ap {A = Values × Bool} {B = Value × Bool} (λ r. (array r.0, r.1)) (items_same vs h)
  compact_same null h = refl
  compact_same (boolean b) h = refl
  compact_same (number n) h = refl
  compact_same (string s) h = refl

  fields_without : (fs : Fields) → AreCompactFields fs → get_field evaluations_key fs ≡ none
  fields_without end h = refl
  fields_without (field k v fs) h = rw (h.0) (fields_without fs h.2)

  fields_same : (fs : Fields) → AreCompactFields fs → compact_fields fs ≡ (fs, false)
  fields_same end h = refl
  fields_same (field k v fs) h = rw (h.0) (rw (compact_same v (h.1)) (rw (fields_same fs h.2) refl))

  items_same : (vs : Values) → AreCompact vs → compact_items vs ≡ (vs, false)
  items_same nil h = refl
  items_same (cons v vs) h = rw (compact_same v h.0) (rw (items_same vs h.1) refl)

unchanged_object :
    (found : Option Value) (r : Fields × Bool)
    → (compact_object found r).1 ≡ false
    → (found ≡ none) × (r.1 ≡ false)
unchanged_object none r h = (refl, h)
unchanged_object (some v) r h = cc

both_false : (a b : Bool) → (a || b) ≡ false → (a ≡ false) × (b ≡ false)
both_false a b h = ground arith

mutual
  unfolding compact_value get_field

  unchanged_value : (v : Value) → (compact_value v).1 ≡ false → IsCompact v
  unchanged_value (object fs) h =
      let parts = unchanged_object (get_field evaluations_key fs) (compact_fields fs) h in
      unchanged_fields fs parts.0 parts.1
  unchanged_value (array vs) h = unchanged_items vs h
  unchanged_value null h = tt
  unchanged_value (boolean b) h = tt
  unchanged_value (number n) h = tt
  unchanged_value (string s) h = tt

  unchanged_fields :
      (fs : Fields)
      → get_field evaluations_key fs ≡ none
      → (compact_fields fs).1 ≡ false
      → AreCompactFields fs
  unchanged_fields end g h = tt
  unchanged_fields (field k v fs) g h = elim (Bool-cases (k == evaluations_key)) [
    | inl gone ↦ cc (rw gone at g)
    | inr kept ↦
        let parts = both_false (compact_value v).1 (compact_fields fs).1 (rw kept at h) in
        (kept, unchanged_value v parts.0, unchanged_fields fs (rw kept at g) parts.1)
  ]

  unchanged_items : (vs : Values) → (compact_items vs).1 ≡ false → AreCompact vs
  unchanged_items nil h = tt
  unchanged_items (cons v vs) h =
      let parts = both_false (compact_value v).1 (compact_items vs).1 h in
      (unchanged_value v parts.0, unchanged_items vs parts.1)

-- The compacted value has no field `nativeEvaluations` at any depth, and the call reports a change
-- exactly when the value is another one.
pub compact_value_lem :
    (v : Value)
    → IsCompact (compact_value v).0 × (((compact_value v).1 ≡ false) ↔ ((compact_value v).0 ≡ v))
compact_value_lem v = (
  value-IsCompact v,
  (
    λ same. ap (λ r. r.0) (compact_same v (unchanged_value v same)),
    λ e. ap (λ r. r.1) (compact_same v (subst IsCompact e (value-IsCompact v))),
  ),
)
