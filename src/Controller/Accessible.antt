-- ===== src/Controller/Accessible.antt =====
-- The names a native inspection gives: `collect_native_accessible_names` of
-- crates/workbench-runtime/src/controller.rs.
use distributed_workbench.Base.{
  ℕ, Str, bytes, Bool, true, false, ◌||◌, Option, none, some, ◌==◌, if◌then◌else◌, ◌≡◌, refl, arith,
  List, [], ◌∷◌, ◌++◌, leb, Bool-cases, inl, inr, ◌≤◌,
}
use distributed_workbench.Base.Lists.{length, length-append}
use distributed_workbench.Base.Trim.{trim, is_empty}
use distributed_workbench.Controller.{one_of}
use distributed_workbench.Json.{
  Value, Values, Fields, null, boolean, number, string, array, object, nil, cons, end, field, get,
}
use distributed_workbench.Resources.{text_of}

abbrev menu_roles : List Str
menu_roles = bytes "AXMenuBar" ∷ bytes "AXMenuBarItem" ∷ bytes "AXMenu" ∷ bytes "AXMenuItem" ∷ []

abbrev is_one_of : List Str → Option Str → Bool
is_one_of ts none = false
is_one_of ts (some t) = one_of ts t

unfoldable pub is_menu : Value → Bool
is_menu value = is_one_of menu_roles (text_of (get value (bytes "role")))

abbrev pub name_keys : List Str
name_keys = bytes "title" ∷ bytes "value" ∷ bytes "description" ∷ []

-- One text: it is trimmed, and taken if it is neither empty nor known.
unfoldable pub add_name : Option Str → List Str → List Str
add_name none names = names
add_name (some text) names =
    if is_empty (trim text) || one_of names (trim text) then names else names ++ trim text ∷ []

-- The loop over the keys stops at the limit, which a name taken may reach.
unfoldable pub add_names : Value → (limit : ℕ) → (keys : List Str) → List Str → List Str
add_names value limit [] names = names
add_names value limit (k ∷ ks) names =
    let rest = add_names value limit ks (add_name (text_of (get value k)) names) in
    if leb limit (length (add_name (text_of (get value k)) names))
    then add_name (text_of (get value k)) names
    else rest

-- What is done of a value before its children: the names, and whether the children are visited.
unfoldable pub own_names : Value → (limit : ℕ) → List Str → List Str × Bool
own_names value limit names =
    if leb limit (length names) || is_menu value then (names, false) else (
      add_names value limit name_keys names,
      if leb limit (length (add_names value limit name_keys names)) then false else true,
    )

unfoldable mutual
  pub collect_native_accessible_names : Value → (limit : ℕ) → List Str → List Str
  collect_native_accessible_names (object fs) limit names =
      elim (own_names (object fs) limit names).1 [
        | true ↦ collect_field fs limit (own_names (object fs) limit names).0
        | false ↦ (own_names (object fs) limit names).0
      ]
  collect_native_accessible_names null limit names = (own_names null limit names).0
  collect_native_accessible_names (boolean b) limit names = (own_names (boolean b) limit names).0
  collect_native_accessible_names (number n) limit names = (own_names (number n) limit names).0
  collect_native_accessible_names (string s) limit names = (own_names (string s) limit names).0
  collect_native_accessible_names (array vs) limit names = (own_names (array vs) limit names).0

  -- The field `children`, where it is an array.
  pub collect_field : Fields → (limit : ℕ) → List Str → List Str
  collect_field end limit names = names
  collect_field (field k v fs) limit names = elim (k == bytes "children") [
    | true ↦ collect_children v limit names
    | false ↦ collect_field fs limit names
  ]

  pub collect_children : Value → (limit : ℕ) → List Str → List Str
  collect_children (array vs) limit names = collect_items vs limit names
  collect_children null limit names = names
  collect_children (boolean b) limit names = names
  collect_children (number n) limit names = names
  collect_children (string s) limit names = names
  collect_children (object fs) limit names = names

  pub collect_items : Values → (limit : ℕ) → List Str → List Str
  collect_items nil limit names = names
  collect_items (cons v vs) limit names =
      elim (leb limit (length (collect_native_accessible_names v limit names))) [
        | true ↦ collect_native_accessible_names v limit names
        | false ↦ collect_items vs limit (collect_native_accessible_names v limit names)
      ]

abbrev pub Distinct : List Str → Type 0
Distinct [] = Unit {0}
Distinct (x ∷ xs) = (one_of xs x ≡ false) × Distinct xs

abbrev pub AreFilled : List Str → Type 0
AreFilled [] = Unit {0}
AreFilled (x ∷ xs) = (is_empty x ≡ false) × AreFilled xs

-- No name is empty, none stands twice, and there are no more than the limit.
pub record AreNames (limit : ℕ) (names : List Str) : Type 0 where
  pub distinct : Distinct names
  pub filled : AreFilled names
  pub bounded : length names ≤ limit

one_of-snoc : (xs : List Str) (s t : Str) → one_of (xs ++ t ∷ []) s ≡ (one_of xs s || s == t)
one_of-snoc [] s t = ground arith
one_of-snoc (x ∷ xs) s t = ground (arith, one_of-snoc xs s t)

Distinct-snoc :
    (xs : List Str) (t : Str) → Distinct xs → one_of xs t ≡ false → Distinct (xs ++ t ∷ [])
Distinct-snoc [] t d h = (refl, tt)
Distinct-snoc (x ∷ xs) t d h =
    (ground (arith, one_of-snoc xs x t), Distinct-snoc xs t d.1 (ground arith))

AreFilled-snoc :
    (xs : List Str) (t : Str) → AreFilled xs → is_empty t ≡ false → AreFilled (xs ++ t ∷ [])
AreFilled-snoc [] t d h = (h, tt)
AreFilled-snoc (x ∷ xs) t d h = (d.0, AreFilled-snoc xs t d.1 h)

add_name-AreNames :
    (limit : ℕ) (t : Option Str) (names : List Str)
    → AreNames limit names
    → leb limit (length names) ≡ false
    → AreNames limit (add_name t names)
unfolding add_name
add_name-AreNames limit none names h room = h
add_name-AreNames limit (some t) names h room =
    elim (Bool-cases (is_empty (trim t) || one_of names (trim t))) [
      | inl known ↦ rw (known, add_name) h
      | inr new ↦
          rw (new, add_name)
            record {
              distinct = Distinct-snoc names (trim t) h.distinct (ground arith);
              filled = AreFilled-snoc names (trim t) h.filled (ground arith);
              bounded = ground (arith, length-append names (trim t ∷ []));
            }
    ]

add_names-AreNames :
    (value : Value) (limit : ℕ) (ks : List Str) (names : List Str)
    → AreNames limit names
    → leb limit (length names) ≡ false
    → AreNames limit (add_names value limit ks names)
unfolding add_names
add_names-AreNames value limit [] names h room = h
add_names-AreNames value limit (k ∷ ks) names h room =
    let step = add_name-AreNames limit (text_of (get value k)) names h room in
    elim (Bool-cases (leb limit (length (add_name (text_of (get value k)) names)))) [
      | inl over ↦ rw (over, add_names) step
      | inr more ↦
          rw (more, add_names)
            (add_names-AreNames value limit ks (add_name (text_of (get value k)) names) step more)
    ]

own_names-AreNames :
    (value : Value) (limit : ℕ) (names : List Str)
    → AreNames limit names
    → AreNames limit (own_names value limit names).0
unfolding own_names
own_names-AreNames value limit names h = elim (Bool-cases (leb limit (length names))) [
  | inl over ↦ rw (over, own_names) h
  | inr room ↦ elim (Bool-cases (is_menu value)) [
    | inl menu ↦ rw (room, own_names) (rw (menu, own_names) h)
    | inr other ↦
        rw (room, own_names)
          (rw (other, own_names) (add_names-AreNames value limit name_keys names h room))
  ]
]

either-AreNames :
    (test : Bool) (limit : ℕ) (taken rest : List Str)
    → AreNames limit taken
    → AreNames limit rest
    → AreNames limit (elim test [ true ↦ taken | false ↦ rest ])
either-AreNames true limit taken rest h k = h
either-AreNames false limit taken rest h k = k

mutual
  unfolding collect_native_accessible_names

  value-AreNames :
      (v : Value) (limit : ℕ) (names : List Str)
      → AreNames limit names
      → AreNames limit (collect_native_accessible_names v limit names)
  value-AreNames (object fs) limit names h =
      elim (Bool-cases (own_names (object fs) limit names).1) [
        | inl on ↦
            rw (on, collect_native_accessible_names)
              (field-AreNames fs limit (own_names (object fs) limit names).0
                (own_names-AreNames (object fs) limit names h))
        | inr stop ↦
            rw (stop, collect_native_accessible_names)
              (own_names-AreNames (object fs) limit names h)
      ]
  value-AreNames null limit names h = own_names-AreNames null limit names h
  value-AreNames (boolean b) limit names h = own_names-AreNames (boolean b) limit names h
  value-AreNames (number n) limit names h = own_names-AreNames (number n) limit names h
  value-AreNames (string s) limit names h = own_names-AreNames (string s) limit names h
  value-AreNames (array vs) limit names h = own_names-AreNames (array vs) limit names h

  field-AreNames :
      (fs : Fields) (limit : ℕ) (names : List Str)
      → AreNames limit names
      → AreNames limit (collect_field fs limit names)
  field-AreNames end limit names h = h
  field-AreNames (field k v fs) limit names h =
      either-AreNames (k == bytes "children") limit (collect_children v limit names)
        (collect_field fs limit names) (children-AreNames v limit names h)
        (field-AreNames fs limit names h)

  children-AreNames :
      (v : Value) (limit : ℕ) (names : List Str)
      → AreNames limit names
      → AreNames limit (collect_children v limit names)
  children-AreNames (array vs) limit names h = items-AreNames vs limit names h
  children-AreNames null limit names h = h
  children-AreNames (boolean b) limit names h = h
  children-AreNames (number n) limit names h = h
  children-AreNames (string s) limit names h = h
  children-AreNames (object fs) limit names h = h

  items-AreNames :
      (vs : Values) (limit : ℕ) (names : List Str)
      → AreNames limit names
      → AreNames limit (collect_items vs limit names)
  items-AreNames nil limit names h = h
  items-AreNames (cons v vs) limit names h =
      let taken = value-AreNames v limit names h in
      either-AreNames (leb limit (length (collect_native_accessible_names v limit names))) limit
        (collect_native_accessible_names v limit names)
        (collect_items vs limit (collect_native_accessible_names v limit names)) taken
        (items-AreNames vs limit (collect_native_accessible_names v limit names) taken)

-- From no names, the names collected are distinct, none is empty, and there are no more than the
-- limit.
pub collect-AreNames :
    (v : Value) (limit : ℕ) → AreNames limit (collect_native_accessible_names v limit [])
collect-AreNames v limit =
    value-AreNames v limit [] record { distinct = tt; filled = tt; bounded = omega arith }
