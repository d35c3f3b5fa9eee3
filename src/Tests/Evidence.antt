-- ===== src/Tests/Evidence.antt =====
-- What the controller keeps of an output, and what it renders and checks, on concrete values.
use distributed_workbench.Base.{
  ℕ, ◌≤◌, ◌++◌, ◌==◌, Str, bytes, true, false, none, ◌≡◌, ◌↔◌, refl, arith, [], ◌∷◌, ok, leb,
  Str-discrete, ℕ_discrete, str_lt, zero, suc, Bool-cases, inl, inr,
}
use distributed_workbench.Base.Lists.{length}
use distributed_workbench.Controller.Accessible.{collect_native_accessible_names}
use distributed_workbench.Controller.Evidence.{compact_value}
use distributed_workbench.Controller.Locks.{render_lock, lock_text}
use distributed_workbench.Controller.Locks.Rounds.{
  placeholder, Ends, IsBraceless, render_lock-Ends, render_lock_forever,
}
use distributed_workbench.Controller.Retained.{native_window, max_persisted}
use distributed_workbench.Controller.Retained.Reduced.{native_window_twice}
use distributed_workbench.Controller.Schemas.{validate_schema}
use distributed_workbench.Controller.Schemas.Conforming.{validate_schema_iff}
use distributed_workbench.Controller.Schemas.Fitting.{Fits}
use distributed_workbench.Json.{
  Value, null, number, string, array, object, nil, cons, end, field, unsigned, get, get_field,
}
use distributed_workbench.Json.Objects.{insert_field}

abbrev button : Value
button = object (
    field (bytes "name") (string (bytes " Save ")) (
      field (bytes "nativeEvaluations") (array (cons null (cons null nil)))
        (field (bytes "role") (string (bytes "AXButton")) end)))

abbrev window : Value
window = object (
    field (bytes "children") (array (cons button nil))
      (field (bytes "name") (string (bytes "Editor")) end))

button_compacted : compact_value button ≡ (
  object (
      field (bytes "name") (string (bytes " Save ")) (
        field
          (bytes "nativeObservationCount")
          (number (unsigned 2))
          (field (bytes "role") (string (bytes "AXButton")) end))),
  true,
)
unfolding compact_value get_field insert_field str_lt Str-discrete ℕ_discrete
button_compacted = refl

native_window_twice_example :
    length (collect_native_accessible_names (native_window window) 200 []) ≤ 3
native_window_twice_example = native_window_twice window 200

-- An encoding with one byte more than an output may have.
unfoldable zeros : ℕ → Str
zeros zero = []
zeros (suc n) = 0 ∷ zeros n

length-zeros : (n : ℕ) → length (zeros n) ≡ n
unfolding zeros
length-zeros zero = refl
length-zeros (suc n) = ground (arith, length-zeros n)

abbrev to_vec : Value → Str
to_vec v = zeros 262145

window_too_long : leb (length (to_vec window)) max_persisted ≡ false
window_too_long = rw (length-zeros 262145) refl

abbrev port_schema : Value
port_schema = object (
    field (bytes "maximum") (number (unsigned 65535))
      (field (bytes "type") (string (bytes "integer")) end))

validate_schema_iff_example :
    (validate_schema
        (λ v. bytes "null")
        (λ n. bytes "1")
        port_schema
        (number (unsigned 8080))
        (bytes "$")
      ≡ ok tt)
    ↔ Fits port_schema (number (unsigned 8080))
validate_schema_iff_example =
    validate_schema_iff (λ v. bytes "null") (λ n. bytes "1") port_schema (number (unsigned 8080))
      (bytes "$")

abbrev shown : Value → Str
shown v = bytes "7"

abbrev app_input : Value
app_input = object (field (bytes "app") (string (bytes "web")) end)

app_input-IsBraceless : IsBraceless shown app_input
unfolding get get_field lock_text
app_input-IsBraceless key v h = elim (Bool-cases (bytes "app" == key)) [
  | inl same ↦ let e : v ≡ string (bytes "web") = ground arith in rw e refl
  | inr other ↦ ground arith
]

render_lock-Ends_example : Ends (render_lock shown 2 (bytes "lock:${app}") app_input)
render_lock-Ends_example =
    render_lock-Ends shown (bytes "lock:${app}") app_input 2 app_input-IsBraceless (omega arith)

abbrev self_input : Value
self_input = object (field (bytes "app") (string (bytes "${app}")) end)

render_lock_forever_example :
    render_lock shown 1000 (bytes "lock:" ++ (placeholder (bytes "app") ++ [])) self_input ≡ none
unfolding get get_field Str-discrete ℕ_discrete
render_lock_forever_example =
    render_lock_forever shown self_input (bytes "lock:") (bytes "app") [] 1000 refl refl refl
