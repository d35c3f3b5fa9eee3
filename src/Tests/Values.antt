-- ===== src/Tests/Values.antt =====
-- Redaction, scoped keys and traces on concrete values.
use distributed_workbench.Base.{
  ◌≡◌, List, [], ◌∷◌, bytes, refl, some, ends_with, contains, starts_with, Str-discrete, ℕ_discrete,
}
use distributed_workbench.Json.{Value, null, string, array, object, nil, cons, end, field}
use distributed_workbench.Protocol.{Request, new_request}
use distributed_workbench.Protocol.Trace.{Hop}
use distributed_workbench.Redaction.{
  redacted, redact_sensitive_value, redact_fields, redact_items, is_sensitive, normalized, marks,
  to_ascii_lowercase, is_separator,
}
use distributed_workbench.Redaction.Clean.{IsClean, redact-IsClean}

-- A command line with a password, under a key, and a token that stands free in a text.
abbrev input : Value
input = object (
    field (bytes "API-Token") (string (bytes "abc")) (
      field (bytes "args")
        (array (cons (string (bytes "--password")) (cons (string (bytes "hunter2")) nil)))
        (field (bytes "note") (string (bytes "use token_1")) end)))

abbrev output : Value
output = object (
    field (bytes "API-Token") redacted (
      field (bytes "args") (array (cons (string (bytes "--password")) (cons redacted nil)))
        (field (bytes "note") redacted end)))

input_redacted : redact_sensitive_value input ≡ output
unfolding redact_sensitive_value redact_fields redact_items is_sensitive normalized marks ends_with
    contains starts_with to_ascii_lowercase is_separator Str-discrete ℕ_discrete
input_redacted = refl

redact-IsClean_example : IsClean (redact_sensitive_value input)
redact-IsClean_example = redact-IsClean input

abbrev first_request : Request
first_request = record (new_request (bytes "run") null (bytes "1")) {
  run_id = some (bytes "run_1");
  span_id = some (bytes "span_1");
}

abbrev hops : List Hop
hops =
    record { action = bytes "task.submit"; params = null; uuid = bytes "2" }
    ∷ record { action = bytes "exec"; params = input; uuid = bytes "3" }
    ∷ []
