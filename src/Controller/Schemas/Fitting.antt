-- ===== src/Controller/Schemas/Fitting.antt =====
-- What it is for a value to fit a schema, apart from `validate_schema` of
-- crates/workbench-runtime/src/controller.rs, and what each of its tests says of that.
use distributed_workbench.Base.{Str, bytes, true, false, none, some, ◌≡◌, ◌⊎◌, ◌≢◌}
use distributed_workbench.Base.Double.{double_lt}
use distributed_workbench.Controller.Schemas.{
  value_eq, string, object, get, cons, boolean, Fields, number, field, end, array, get_field, float,
  Number, unsigned, double_lt, number_as_f64, negative,
}
use distributed_workbench.Json.{
  Value, Values, string, get, Fields, nil, end, array, null, get_field, Number,
}
use distributed_workbench.Json.Equality.{value_eq}

-- A value is one of the list.
abbrev pub IsItem : Value → Values → Type 0
IsItem v nil = ⊥
IsItem v (cons w ws) = (w ≡ v) ⊎ IsItem v ws

-- The types that a value has.
abbrev pub IsKind : Value → (kind : Str) → Type 0
IsKind null kind = kind ≡ bytes "null"
IsKind (boolean b) kind = kind ≡ bytes "boolean"
IsKind (number (float b)) kind = kind ≡ bytes "number"
IsKind (number (unsigned n)) kind = (kind ≡ bytes "integer") ⊎ (kind ≡ bytes "number")
IsKind (number (negative n)) kind = (kind ≡ bytes "integer") ⊎ (kind ≡ bytes "number")
IsKind (string s) kind = kind ≡ bytes "string"
IsKind (array vs) kind = kind ≡ bytes "array"
IsKind (object fs) kind = kind ≡ bytes "object"

-- A schema names a type: it is the text, or a list with the text.
abbrev pub Names : (types : Value) → (kind : Str) → Type 0
Names types kind =
    (types ≡ string kind) ⊎ ((kinds : Values) × (types ≡ array kinds) × IsItem (string kind) kinds)

-- The value is equal to one of those allowed.
abbrev pub IsAllowed : Value → Values → Type 0
IsAllowed v allowed = (w : Value) × IsItem w allowed × (value_eq w v ≡ true)

-- No field is there to constrain a value.
abbrev pub IsFree : (schema : Value) → Type 0
IsFree schema = (fs : Fields) → schema ≡ object fs → fs ≡ end

-- What a schema asks of the value itself.
pub record FitsScalar (schema value : Value) : Type 0 where
  pub allowed : (ws : Values) → get schema (bytes "enum") ≡ some (array ws) → IsAllowed value ws
  pub typed :
      (types : Value)
      → get schema (bytes "type") ≡ some types
      → (kind : Str) × Names types kind × IsKind value kind
  pub not_less :
      (least n : Number)
      → get schema (bytes "minimum") ≡ some (number least)
      → value ≡ number n
      → double_lt (number_as_f64 n) (number_as_f64 least) ≡ false
  pub not_more :
      (most n : Number)
      → get schema (bytes "maximum") ≡ some (number most)
      → value ≡ number n
      → double_lt (number_as_f64 most) (number_as_f64 n) ≡ false

-- The object has each key that the schema requires.
abbrev pub HasRequired : (schema : Value) → Fields → Type 0
HasRequired schema fs =
    (keys : Values) (key : Str)
    → get schema (bytes "required") ≡ some (array keys)
    → IsItem (string key) keys
    → (v : Value) × (get_field key fs ≡ some v)

-- A free schema fits all. Any other one asks something of the value itself. Where it has properties,
-- each field fits the schema that it has there, and one without is not forbidden; where it has items,
-- each item fits them.
abbrev mutual
  pub Fits : (schema value : Value) → Type 0
  Fits schema (object fs) =
      IsFree schema
      ⊎ (FitsScalar schema (object fs) × (HasRequired schema fs × FitFields schema fs))
  Fits schema (array vs) = IsFree schema ⊎ (FitsScalar schema (array vs) × FitItems schema vs)
  Fits schema null = IsFree schema ⊎ FitsScalar schema null
  Fits schema (boolean b) = IsFree schema ⊎ FitsScalar schema (boolean b)
  Fits schema (number n) = IsFree schema ⊎ FitsScalar schema (number n)
  Fits schema (string s) = IsFree schema ⊎ FitsScalar schema (string s)

  pub FitFields : (schema : Value) → Fields → Type 0
  FitFields schema end = Unit {0}
  FitFields schema (field key child fs) =
      ((ps : Fields)
        → get schema (bytes "properties") ≡ some (object ps)
        → ((s : Value) → get_field key ps ≡ some s → Fits s child)
          × (get_field key ps ≡ none
              → get schema (bytes "additionalProperties") ≢ some (boolean false)))
      × FitFields schema fs

  pub FitItems : (schema : Value) → Values → Type 0
  FitItems schema nil = Unit {0}
  FitItems schema (cons child vs) =
      ((s : Value) → get schema (bytes "items") ≡ some s → Fits s child) × FitItems schema vs
