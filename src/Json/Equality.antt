-- ===== src/Json/Equality.antt =====
-- `==` on `serde_json::Value`: numbers of different kinds differ, and the two zeros of a double are
-- equal.
use distributed_workbench.Base.{ℕ, Bool, true, false, ◌&&◌, ◌||◌, ◌==◌, not}
use distributed_workbench.Base.Trim.{is}
use distributed_workbench.Json.{
  Number, unsigned, negative, float, Value, Values, Fields, null, boolean, number, string, array,
  object, nil, cons, end, field,
}

abbrev is_zero : ℕ → Bool
is_zero n = is n 0 || is n 9223372036854775808

unfoldable pub number_eq : Number → Number → Bool
number_eq (unsigned a) (unsigned b) = is a b
number_eq (negative a) (negative b) = is a b
number_eq (float a) (float b) = is a b || (is_zero a && is_zero b)
number_eq _ _ = false

abbrev boolean_eq : Bool → Bool → Bool
boolean_eq true b = b
boolean_eq false b = not b

unfoldable mutual
  unfolding number_eq

  pub value_eq : Value → Value → Bool
  value_eq null null = true
  value_eq (boolean a) (boolean b) = boolean_eq a b
  value_eq (number a) (number b) = number_eq a b
  value_eq (string a) (string b) = a == b
  value_eq (array a) (array b) = items_eq a b
  value_eq (object a) (object b) = fields_eq a b
  value_eq _ _ = false

  pub items_eq : Values → Values → Bool
  items_eq nil nil = true
  items_eq (cons a us) (cons b vs) = value_eq a b && items_eq us vs
  items_eq _ _ = false

  pub fields_eq : Fields → Fields → Bool
  fields_eq end end = true
  fields_eq (field j a fs) (field k b gs) = j == k && (value_eq a b && fields_eq fs gs)
  fields_eq _ _ = false
