-- ===== src/Json.antt =====
-- `serde_json::Value`, which the program matches on and builds. The fields of an object stand in the
-- order of their keys. A number is an unsigned integer, -(n + 1), or the bits of a finite double.
pub mod Equality
pub mod Objects
use distributed_workbench.Base.{ℕ, Str, Bool, Option, none, some, ◌==◌, if◌then◌else◌}

pub data Number : Type 0 where
  unsigned negative float : ℕ → Number

mutual
  pub data Value : Type 0 where
    null : Value
    boolean : Bool → Value
    number : Number → Value
    string : Str → Value
    array : Values → Value
    object : Fields → Value

  pub data Values : Type 0 where
    nil : Values
    cons : Value → Values → Values

  pub data Fields : Type 0 where
    end : Fields
    field : Str → Value → Fields → Fields

unfoldable pub get_field : Str → Fields → Option Value
get_field k end = none
get_field k (field j v fs) = if j == k then some v else get_field k fs

-- `value.get(key)`
unfoldable pub get : Value → Str → Option Value
unfolding get_field
get (object fs) k = get_field k fs
get _ k = none

-- `value.as_str()`, `as_u64()` and `as_bool()`.
unfoldable pub as_str : Value → Option Str
as_str (string s) = some s
as_str _ = none

unfoldable pub as_u64 : Value → Option ℕ
as_u64 (number (unsigned n)) = some n
as_u64 _ = none

unfoldable pub as_bool : Value → Option Bool
as_bool (boolean b) = some b
as_bool _ = none
