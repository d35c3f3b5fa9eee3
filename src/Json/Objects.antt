-- ===== src/Json/Objects.antt =====
-- The operations of `serde_json::Map` and of `Value` that the program calls on objects.
use distributed_workbench.Base.{
  Str, Bool, true, false, Option, none, some, ◌==◌, if◌then◌else◌, str_lt, ◌≡◌, ◌⊎◌, arith, List,
  [], ◌∷◌,
}
use distributed_workbench.Json.{Value, Values, Fields, array, object, end, field, get, get_field}

-- `object.insert(key, value)` keeps the order of the keys.
unfoldable pub insert_field : Str → Value → Fields → Fields
insert_field k v end = field k v end
insert_field k v (field j w fs) =
    if j == k
    then field k v fs
    else if str_lt k j
    then field k v (field j w fs)
    else field j w (insert_field k v fs)

-- `object.contains_key(key)`
unfoldable pub contains_key : Fields → Str → Bool
contains_key end k = false
contains_key (field j v fs) k = if j == k then true else contains_key fs k

-- `as_array` and `as_object`.
unfoldable pub as_array : Value → Option Values
as_array (array vs) = some vs
as_array _ = none

unfoldable pub as_object : Value → Option Fields
as_object (object fs) = some fs
as_object _ = none

-- `value.pointer("/first/second")` on objects; the program's pointers have no numbers.
abbrev get_in : Option Value → Str → Option Value
get_in none k = none
get_in (some v) k = get v k

abbrev walk : Option Value → List Str → Option Value
walk v [] = v
walk v (k ∷ ks) = walk (get_in v k) ks

unfoldable pub pointer : Value → List Str → Option Value
pointer v ks = walk (some v) ks

-- A key that an object has not is the one inserted, or is still missing.
pub contains_key-insert_field :
    (k j : Str) (v : Value) (fs : Fields)
    → contains_key fs j ≡ false
    → (k ≡ j) ⊎ (contains_key (insert_field k v fs) j ≡ false)
unfolding contains_key insert_field
contains_key-insert_field k j v end h = ground arith
contains_key-insert_field k j v (field i w fs) h =
    ground (arith, contains_key-insert_field k j v fs)

pub get_field-insert_field :
    (k j : Str) (v : Value) (fs : Fields)
    → get_field j (insert_field k v fs) ≡ (if k == j then some v else get_field j fs)
unfolding get_field insert_field
get_field-insert_field k j v end = ground arith
get_field-insert_field k j v (field i w fs) = ground (arith, get_field-insert_field k j v fs)
