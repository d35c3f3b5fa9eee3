-- ===== src/Redaction/Clean.antt =====
-- What redaction promises of its result.
use mathlib.Core.Path.{ap₂}
use distributed_workbench.Base.{
  false, contains, starts_with, bytes, ◌≡◌, ℕ_discrete, refl, if◌then◌else◌, ends_with,
  Str-discrete, Bool, true, Str, ◌⊎◌, ◌↔◌, Bool-cases, inl, sym, inr, arith, ap,
}
use distributed_workbench.Json.{
  Value, Values, Fields, null, boolean, number, string, array, object, nil, cons, end, field,
}
use distributed_workbench.Redaction.{
  marks, is_sensitive, normalized, redacted, redact_sensitive_value, redact_fields, redact_items,
}

-- No text holds `token_`, a field with a sensitive key holds the placeholder, and so does the item
-- behind a text that announces a secret.
abbrev mutual
  pub IsClean : Value → Type 0
  IsClean (object fs) = AreCleanFields fs
  IsClean (array vs) = AreCleanItems vs false
  IsClean (string text) = contains text (bytes "token_") ≡ false
  IsClean null = Unit {0}
  IsClean (boolean b) = Unit {0}
  IsClean (number n) = Unit {0}

  pub AreCleanFields : Fields → Type 0
  AreCleanFields end = Unit {0}
  AreCleanFields (field k v fs) =
      (if is_sensitive k then v ≡ redacted else IsClean v) × AreCleanFields fs

  pub AreCleanItems : Values → Bool → Type 0
  AreCleanItems nil next = Unit {0}
  AreCleanItems (cons v vs) true = (v ≡ redacted) × AreCleanItems vs false
  AreCleanItems (cons v vs) false = IsClean v × AreCleanItems vs (marks v)

redacted-IsClean : contains (bytes "<redacted>") (bytes "token_") ≡ false
unfolding contains starts_with ℕ_discrete
redacted-IsClean = refl

-- The placeholder announces no secret.
marks-redacted : marks redacted ≡ false
unfolding marks is_sensitive normalized ends_with Str-discrete ℕ_discrete
marks-redacted = refl

-- Redaction makes a text announce less, never more.
marks-redact :
    (v : Value)
    → (marks (redact_sensitive_value v) ≡ marks v) ⊎ (marks (redact_sensitive_value v) ≡ false)
unfolding redact_sensitive_value marks
marks-redact null = inl refl
marks-redact (boolean b) = inl refl
marks-redact (number n) = inl refl
marks-redact (array vs) = inl refl
marks-redact (object fs) = inl refl
marks-redact (string text) = elim (Bool-cases (contains text (bytes "token_"))) [
  | inl holds ↦ rw (holds, redact_sensitive_value) (inr marks-redacted)
  | inr free ↦ rw (free, redact_sensitive_value) (inl refl)
]

redact_text-IsClean :
    (text : Str) → IsClean (if contains text (bytes "token_") then redacted else string text)
redact_text-IsClean text = elim (Bool-cases (contains text (bytes "token_"))) [
  | inl holds ↦ rw holds redacted-IsClean
  | inr free ↦ rw free free
]

redact_field-IsClean :
    (k : Str) (v w : Value)
    → IsClean w
    → (if is_sensitive k
        then (if is_sensitive k then redacted else w) ≡ redacted
        else IsClean (if is_sensitive k then redacted else w))
redact_field-IsClean k v w h = elim (Bool-cases (is_sensitive k)) [
  | inl secret ↦ rw secret refl
  | inr plain ↦ rw plain h
]

mutual
  unfolding redact_sensitive_value redact_fields redact_items

  redact_value-IsClean : (v : Value) → IsClean (redact_sensitive_value v)
  redact_value-IsClean null = tt
  redact_value-IsClean (boolean b) = tt
  redact_value-IsClean (number n) = tt
  redact_value-IsClean (string text) = redact_text-IsClean text
  redact_value-IsClean (array vs) = redact_items-AreClean vs false false (inl refl)
  redact_value-IsClean (object fs) = redact_fields-AreClean fs

  redact_fields-AreClean : (fs : Fields) → AreCleanFields (redact_fields fs)
  redact_fields-AreClean end = tt
  redact_fields-AreClean (field k v fs) = (
    redact_field-IsClean k v (redact_sensitive_value v) (redact_value-IsClean v),
    redact_fields-AreClean fs,
  )

  redact_items-AreClean :
      (vs : Values) (next flag : Bool)
      → (flag ≡ next) ⊎ (flag ≡ false)
      → AreCleanItems (redact_items vs next) flag
  redact_items-AreClean nil next flag h = tt
  redact_items-AreClean (cons v vs) true true h =
      (refl, redact_items-AreClean vs false false (inl refl))
  redact_items-AreClean (cons v vs) true false h =
      (redacted-IsClean, rw marks-redacted (redact_items-AreClean vs false false (inl refl)))
  redact_items-AreClean (cons v vs) false true h = absurd (ground arith)
  redact_items-AreClean (cons v vs) false false h = (
    redact_value-IsClean v,
    redact_items-AreClean vs (marks v) (marks (redact_sensitive_value v)) (marks-redact v),
  )

clean_text :
    (text : Str)
    → contains text (bytes "token_") ≡ false
    → (if contains text (bytes "token_") then redacted else string text) ≡ string text
clean_text text h = rw h refl

clean_field :
    (k : Str) (v w : Value)
    → (if is_sensitive k then v ≡ redacted else IsClean v)
    → (IsClean v → w ≡ v)
    → (if is_sensitive k then redacted else w) ≡ v
clean_field k v w h same = elim (Bool-cases (is_sensitive k)) [
  | inl secret ↦ rw secret (sym (rw secret at h))
  | inr plain ↦ rw plain (same (rw plain at h))
]

mutual
  unfolding redact_sensitive_value redact_fields redact_items

  clean_value : (v : Value) → IsClean v → redact_sensitive_value v ≡ v
  clean_value null h = refl
  clean_value (boolean b) h = refl
  clean_value (number n) h = refl
  clean_value (string text) h = clean_text text h
  clean_value (array vs) h = ap array (clean_items vs false h)
  clean_value (object fs) h = ap object (clean_fields fs h)

  clean_fields : (fs : Fields) → AreCleanFields fs → redact_fields fs ≡ fs
  clean_fields end h = refl
  clean_fields (field k v fs) h =
      ap₂ (field k) (clean_field k v (redact_sensitive_value v) h.0 (clean_value v))
        (clean_fields fs h.1)

  clean_items : (vs : Values) (next : Bool) → AreCleanItems vs next → redact_items vs next ≡ vs
  clean_items nil next h = refl
  clean_items (cons v vs) true h = ap₂ cons (sym h.0) (clean_items vs false h.1)
  clean_items (cons v vs) false h = ap₂ cons (clean_value v h.0) (clean_items vs (marks v) h.1)

-- After redaction no text holds `token_`, every field whose key ends in `token`, `secret`,
-- `password` or `credential` (whatever its case and separators) holds the placeholder, and so does
-- every item that follows a text with such an end, at any depth.
pub redact-IsClean : (v : Value) → IsClean (redact_sensitive_value v)
redact-IsClean v = redact_value-IsClean v

-- Redaction returns exactly the clean values unchanged.
pub redact-eq_iff : (v : Value) → (redact_sensitive_value v ≡ v) ↔ IsClean v
redact-eq_iff v = (λ e. rw e at (redact_value-IsClean v), clean_value v)
