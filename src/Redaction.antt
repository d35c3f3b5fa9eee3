-- ===== src/Redaction.antt =====
-- `redact_sensitive_value` of crates/workbench-core/src/task.rs.
pub mod Clean
use distributed_workbench.Base.{
  ℕ, ◌+◌, Str, bytes, Bool, true, false, not, ◌&&◌, ◌||◌, List, [], ◌∷◌, map, leb, ends_with,
  contains, if◌then◌else◌,
}
use distributed_workbench.Base.Lists.{filter}
use distributed_workbench.Json.{
  Value, Values, Fields, null, boolean, number, string, array, object, nil, cons, end, field,
}

-- `u8::to_ascii_lowercase`
unfoldable pub to_ascii_lowercase : ℕ → ℕ
to_ascii_lowercase c = if leb b'A' c && leb c b'Z' then c + 32 else c

unfoldable pub is_separator : ℕ → Bool
is_separator c = (leb b'_' c && leb c b'_') || (leb b'-' c && leb c b'-')

-- `key.to_ascii_lowercase().replace(['_', '-'], "")`
unfoldable pub normalized : Str → Str
unfolding to_ascii_lowercase is_separator
normalized s = filter (λ c. not (is_separator c)) (map to_ascii_lowercase s)

abbrev pub any_suffix : List Str → Str → Bool
any_suffix [] s = false
any_suffix (p ∷ ps) s = ends_with s p || any_suffix ps s

-- The test that the code makes of keys, and of texts that announce a secret in the next item.
unfoldable pub is_sensitive : Str → Bool
unfolding normalized
is_sensitive s =
    any_suffix (bytes "token" ∷ bytes "secret" ∷ bytes "password" ∷ bytes "credential" ∷ [])
      (normalized s)

abbrev pub redacted : Value
redacted = string (bytes "<redacted>")

-- Whether an item makes `redact_next` true.
unfoldable pub marks : Value → Bool
marks (string text) = is_sensitive text
marks _ = false

unfoldable mutual
  pub redact_sensitive_value : Value → Value
  redact_sensitive_value (object fs) = object (redact_fields fs)
  redact_sensitive_value (array vs) = array (redact_items vs false)
  redact_sensitive_value (string text) =
      if contains text (bytes "token_") then redacted else string text
  redact_sensitive_value null = null
  redact_sensitive_value (boolean b) = boolean b
  redact_sensitive_value (number n) = number n

  pub redact_fields : Fields → Fields
  redact_fields end = end
  redact_fields (field k v fs) =
      field k (if is_sensitive k then redacted else redact_sensitive_value v) (redact_fields fs)

  -- The flag is `redact_next`.
  pub redact_items : Values → Bool → Values
  redact_items nil next = nil
  redact_items (cons v vs) true = cons redacted (redact_items vs false)
  redact_items (cons v vs) false = cons (redact_sensitive_value v) (redact_items vs (marks v))
