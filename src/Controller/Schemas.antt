-- ===== src/Controller/Schemas.antt =====
-- `validate_schema` and `value_matches_type` of crates/workbench-runtime/src/controller.rs.
pub mod Agreeing
pub mod Conforming
pub mod Fitting
pub mod Passing
use distributed_workbench.Base.{
  ℕ, suc, Str, bytes, Bool, true, false, not, ◌&&◌, ◌||◌, Option, none, some, ◌++◌, Result, ok,
  guard, ◌>>◌, ◌==◌,
}
use distributed_workbench.Base.Double.{double_from, double_neg, double_lt}
use distributed_workbench.Json.{
  Value, Values, Fields, Number, unsigned, negative, float, null, boolean, number, string, array,
  object, nil, cons, end, field, get, get_field,
}
use distributed_workbench.Json.Equality.{value_eq}
use distributed_workbench.Json.Objects.{contains_key}
use distributed_workbench.Protocol.{RpcError, rpc_error}
use distributed_workbench.Resources.{decimal}

abbrev is_integer : Number → Bool
is_integer (unsigned n) = true
is_integer (negative n) = true
is_integer (float b) = false

unfoldable pub value_matches_type : Value → (kind : Str) → Bool
value_matches_type null kind = kind == bytes "null"
value_matches_type (boolean b) kind = kind == bytes "boolean"
value_matches_type (number n) kind =
    (kind == bytes "integer" && is_integer n) || kind == bytes "number"
value_matches_type (string s) kind = kind == bytes "string"
value_matches_type (array vs) kind = kind == bytes "array"
value_matches_type (object fs) kind = kind == bytes "object"

unfoldable pub schema_error : (path message : Str) → RpcError
schema_error path message =
    rpc_error (bytes "SCHEMA_VALIDATION_FAILED") (path ++ (bytes " " ++ message))

-- Whether a schema constrains nothing.
abbrev pub is_free : Value → Bool
is_free (object end) = true
is_free (object (field k v fs)) = false
is_free _ = true

-- `allowed.contains(value)`
abbrev pub holds_value : Values → Value → Bool
holds_value nil v = false
holds_value (cons w ws) v = value_eq w v || holds_value ws v

-- Whether one of the texts among the kinds is a type of the value.
abbrev pub any_kind : Values → Value → Bool
any_kind nil v = false
any_kind (cons (string kind) ks) v = value_matches_type v kind || any_kind ks v
any_kind (cons _ ks) v = any_kind ks v

abbrev pub matches_types : Value → Value → Bool
matches_types (string kind) v = value_matches_type v kind
matches_types (array kinds) v = any_kind kinds v
matches_types _ v = false

-- `number.as_f64()`, as bits.
abbrev pub number_as_f64 : Number → ℕ
number_as_f64 (unsigned n) = double_from n
number_as_f64 (negative n) = double_neg (double_from (suc n))
number_as_f64 (float b) = b

abbrev pub as_f64 : Option Value → Option ℕ
as_f64 (some (number n)) = some (number_as_f64 n)
as_f64 _ = none

-- Whether the first number is there and below the second.
abbrev pub is_below : Option ℕ → Option ℕ → Bool
is_below (some a) (some b) = double_lt a b
is_below _ _ = false

abbrev pub of_enum : Option Value → Value → Bool
of_enum (some (array allowed)) v = holds_value allowed v
of_enum _ v = true

abbrev pub of_type : Option Value → Value → Bool
of_type none v = true
of_type (some types) v = matches_types types v

-- `schema.get("additionalProperties") == Some(&Value::Bool(false))`
abbrev pub forbids : Option Value → Bool
forbids (some (boolean b)) = not b
forbids _ = false

abbrev pub is_closed : Value → Bool
is_closed schema = forbids (get schema (bytes "additionalProperties"))

-- What `properties` says of a key: there are no properties, it is not among them, or its schema.
pub data Property : Type 0 where
  absent : Property
  other : Property
  given : Value → Property

abbrev pub known : Option Value → Property
known none = other
known (some schema) = given schema

abbrev pub property : Option Value → Str → Property
property (some (object ps)) key = known (get_field key ps)
property _ key = absent

-- The texts of a type and of a double in a message are parameters.
module _ (show : Option Value → Str) (show_f64 : Option ℕ → Str) where
  -- The four tests that a value of any kind must pass.
  unfoldable pub check_scalar : (schema value : Value) → (path : Str) → Result RpcError (Unit {0})
  check_scalar schema value path =
      guard (of_enum (get schema (bytes "enum")) value)
        (schema_error path (bytes "value is not in enum"))
      >> (guard (of_type (get schema (bytes "type")) value)
            (schema_error path (bytes "does not match type " ++ show (get schema (bytes "type"))))
          >> (guard (not (is_below (as_f64 (some value)) (as_f64 (get schema (bytes "minimum"))))) (
                schema_error path
                  (bytes "is below minimum " ++ show_f64 (as_f64 (get schema (bytes "minimum")))))
              >> guard
                  (not (is_below (as_f64 (get schema (bytes "maximum"))) (as_f64 (some value))))
                  (schema_error path (
                    bytes "is above maximum "
                    ++ show_f64 (as_f64 (get schema (bytes "maximum")))))))

  abbrev pub dot : (path key : Str) → Str
  dot path key = path ++ (bytes "." ++ key)

  unfoldable pub check_keys : Values → Fields → (path : Str) → Result RpcError (Unit {0})
  check_keys nil fs path = ok tt
  check_keys (cons (string key) ks) fs path =
      guard (contains_key fs key) (schema_error (dot path key) (bytes "is required"))
      >> check_keys ks fs path
  check_keys (cons null ks) fs path = check_keys ks fs path
  check_keys (cons (boolean b) ks) fs path = check_keys ks fs path
  check_keys (cons (number n) ks) fs path = check_keys ks fs path
  check_keys (cons (array vs) ks) fs path = check_keys ks fs path
  check_keys (cons (object gs) ks) fs path = check_keys ks fs path

  abbrev pub check_required : Option Value → Fields → (path : Str) → Result RpcError (Unit {0})
  check_required (some (array keys)) fs path = check_keys keys fs path
  check_required _ fs path = ok tt

  abbrev pub step : Str → ℕ → Str
  step path index = path ++ (bytes "[" ++ (decimal 20 index ++ bytes "]"))

  abbrev pub unless : Bool → Result RpcError (Unit {0}) → Result RpcError (Unit {0})
  unless true rest = ok tt
  unless false rest = rest

  unfoldable mutual
    unfolding check_scalar check_keys

    pub validate_schema : (schema value : Value) → (path : Str) → Result RpcError (Unit {0})
    validate_schema schema (object fs) path = unless (is_free schema) (
        check_scalar schema (object fs) path
        >> (check_required (get schema (bytes "required")) fs path
            >> validate_fields (get schema (bytes "properties")) schema fs path))
    validate_schema schema (array vs) path = unless (is_free schema) (
        check_scalar schema (array vs) path
        >> validate_items (get schema (bytes "items")) vs 0 path)
    validate_schema schema null path = unless (is_free schema) (check_scalar schema null path)
    validate_schema schema (boolean b) path =
        unless (is_free schema) (check_scalar schema (boolean b) path)
    validate_schema schema (number n) path =
        unless (is_free schema) (check_scalar schema (number n) path)
    validate_schema schema (string s) path =
        unless (is_free schema) (check_scalar schema (string s) path)

    -- The fields are visited only where `properties` is an object.
    pub validate_fields :
        (properties : Option Value)
        → (schema : Value) → Fields
        → (path : Str) → Result RpcError (Unit {0})
    validate_fields properties schema end path = ok tt
    validate_fields properties schema (field key child fs) path =
        elim (property properties key) [
          | absent ↦ ok tt
          | other ↦
              guard (not (is_closed schema)) (schema_error (dot path key) (bytes "is not allowed"))
          | given child_schema ↦ validate_schema child_schema child (dot path key)
        ]
        >> validate_fields properties schema fs path

    pub validate_items :
        (items : Option Value) → Values → (index : ℕ) → (path : Str) → Result RpcError (Unit {0})
    validate_items items nil index path = ok tt
    validate_items items (cons child vs) index path =
        elim items [
          | none ↦ ok tt
          | some child_schema ↦ validate_schema child_schema child (step path index)
        ]
        >> validate_items items vs (suc index) path
