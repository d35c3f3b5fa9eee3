-- ===== src/Controller/Retained.antt =====
-- Which part of a task's output the controller keeps: `retained_task_output`, `bounded_task_output`
-- and `compact_task_outputs` of crates/workbench-runtime/src/controller.rs.
pub mod Reduced
use distributed_workbench.Base.{
  ℕ, Str, bytes, Bool, true, false, not, ◌||◌, Option, none, some, ◌==◌, if◌then◌else◌, ◌≡◌, refl,
  arith, List, [], ◌∷◌, leb, ◌≤◌, ◌+◌, Str-discrete, ℕ_discrete, ◌∙◌, Option-cases, inl, inr,
}
use distributed_workbench.Base.Lists.{length, length-append}
use distributed_workbench.Base.Trim.{trim}
use distributed_workbench.Controller.{count, one_of, text_of, or_else}
use distributed_workbench.Controller.Accessible.{
  collect_native_accessible_names, own_names, collect_field, add_name, add_names, name_keys,
}
use distributed_workbench.Json.{
  Value, Values, Fields, null, boolean, number, string, array, object, nil, cons, end, field, get,
  unsigned, get_field,
}
use distributed_workbench.Json.Equality.{value_eq}
use distributed_workbench.Json.Objects.{insert_field, pointer, get_field-insert_field}
use distributed_workbench.Resources.{text_of}
use distributed_workbench.Schema.Task.{Task}

-- `value.cloned().unwrap_or(default)`
abbrev or_value : Option Value → Value → Value
or_value none d = d
or_value (some v) d = v

abbrev items_of : Option Value → Values
items_of (some (array vs)) = vs
items_of _ = nil

abbrev pub texts : List Str → Values
texts [] = nil
texts (s ∷ ss) = cons (string s) (texts ss)

abbrev pub field_or_null : Value → Str → Value
field_or_null value k = or_value (get value k) null

abbrev pub window_fields : Value → Fields
window_fields window =
    field (bytes "accessibleNames") (array (texts (collect_native_accessible_names window 128 [])))
      (field (bytes "description") (field_or_null window (bytes "description")) (
        field (bytes "role") (field_or_null window (bytes "role")) (
          field (bytes "title") (field_or_null window (bytes "title"))
            (field (bytes "value") (field_or_null window (bytes "value")) end))))

unfoldable pub native_window : Value → Value
native_window window = object (window_fields window)

abbrev pub each : (Value → Value) → Values → Values
each f nil = nil
each f (cons v vs) = cons (f v) (each f vs)

unfoldable pub native_process : Value → Value
native_process process = object (
    field (bytes "pid") (field_or_null process (bytes "pid")) (
      field (bytes "windows")
        (array (each native_window (items_of (get process (bytes "windows"))))) end))

abbrev inspected : Str → List Str
inspected k = bytes "inspection" ∷ k ∷ []

unfoldable pub native_inspection : Value → Value
native_inspection result = object (
    field (bytes "accessibilityTrusted")
      (or_value (pointer result (inspected (bytes "accessibilityTrusted"))) (boolean false))
      (field (bytes "processCount")
        (number (unsigned (count (items_of (pointer result (inspected (bytes "processes")))))))
        (field (bytes "processes")
          (array (each native_process (items_of (pointer result (inspected (bytes "processes"))))))
          end)))

unfoldable pub retained_task_output : (capability : Str) → Value → Value
retained_task_output capability result =
    if not (capability == bytes "ui.native-inspect")
    then result
    else object (
        field (bytes "applicationPath") (field_or_null result (bytes "applicationPath")) (
          field (bytes "inspectedAt") (field_or_null result (bytes "inspectedAt")) (
            field (bytes "inspection") (native_inspection result)
              (field (bytes "pids") (or_value (get result (bytes "pids")) (array nil)) end))))

-- `MAX_PERSISTED_TASK_OUTPUT_BYTES`
abbrev pub max_persisted : ℕ
max_persisted = 262144

abbrev pub summary_keys : List Str
summary_keys =
    bytes "id"
    ∷ bytes "path"
    ∷ bytes "destination"
    ∷ bytes "digest"
    ∷ bytes "size"
    ∷ bytes "encoding"
    ∷ bytes "truncated"
    ∷ bytes "nextOffset"
    ∷ []

abbrev pub keep_field : Option Value → Str → Fields → Fields
keep_field none k fs = fs
keep_field (some v) k fs = insert_field k v fs

abbrev pub keep_fields : Value → List Str → Fields → Fields
keep_fields value [] fs = fs
keep_fields value (k ∷ ks) fs = keep_fields value ks (keep_field (get value k) k fs)

-- The encoder of JSON and the digest are parameters.
module _ (to_vec : Value → Str) (sha256_bytes : Str → Str) where
  unfoldable pub bounded_task_output : Value → Value
  bounded_task_output result =
      if leb (length (to_vec result)) max_persisted
      then result
      else object (
          insert_field (bytes "outputDigest") (string (sha256_bytes (to_vec result))) (
            insert_field (bytes "originalBytes") (number (unsigned (length (to_vec result)))) (
              insert_field (bytes "_workbenchOutputOmitted") (boolean true)
                (keep_fields result summary_keys end))))

  abbrev compact_output : Str → Option Value → Option Value × Bool
  compact_output capability none = (none, false)
  compact_output capability (some output) =
      let compact = bounded_task_output (retained_task_output capability output) in
      if value_eq compact output then (some output, false) else (some compact, true)

  unfoldable pub compact_task_outputs : List Task → List Task × Bool
  compact_task_outputs [] = ([], false)
  compact_task_outputs (t ∷ ts) = (
    record t { output = (compact_output t.capability t.output).0 } ∷ (compact_task_outputs ts).0,
    (compact_output t.capability t.output).1 || (compact_task_outputs ts).1,
  )
