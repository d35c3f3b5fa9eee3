-- ===== src/Controller/Retained/Reduced.antt =====
-- What the reduced outputs of crates/workbench-runtime/src/controller.rs still hold.
use distributed_workbench.Base.{
  ℕ, Str, bytes, true, false, Option, none, some, ◌==◌, if◌then◌else◌, ◌≡◌, refl, arith, List, [],
  ◌∷◌, leb, ◌≤◌, ◌+◌, Str-discrete, ℕ_discrete, ◌∙◌, Option-cases, inl, inr,
}
use distributed_workbench.Base.Lists.{length, length-append}
use distributed_workbench.Base.Trim.{trim}
use distributed_workbench.Controller.{one_of, text_of, or_else}
use distributed_workbench.Controller.Accessible.{
  collect_native_accessible_names, own_names, collect_field, add_name, add_names, name_keys,
}
use distributed_workbench.Controller.Retained.{
  native_window, window_fields, bounded_task_output, max_persisted, summary_keys, keep_field,
  keep_fields,
}
use distributed_workbench.Json.{
  Value, Fields, boolean, number, string, object, end, get, unsigned, get_field,
}
use distributed_workbench.Json.Objects.{insert_field, get_field-insert_field}
use distributed_workbench.Resources.{text_of}

length-add_name-le :
    (t : Option Str) (names : List Str) → length (add_name t names) ≤ length names + 1
unfolding add_name
length-add_name-le none names = omega arith
length-add_name-le (some t) names = ground (arith, length-append names (trim t ∷ []))

length-add_names-le :
    (value : Value) (limit : ℕ) (ks : List Str) (names : List Str)
    → length (add_names value limit ks names) ≤ length names + length ks
unfolding add_names
length-add_names-le value limit [] names = omega arith
length-add_names-le value limit (k ∷ ks) names =
    let step = length-add_name-le (text_of (get value k)) names in
    let rest = length-add_names-le value limit ks (add_name (text_of (get value k)) names) in
    ground arith

length-own_names-le : (value : Value) (limit : ℕ) → length (own_names value limit []).0 ≤ 3
unfolding own_names
length-own_names-le value limit = ground (arith, length-add_names-le value limit name_keys [])

-- An object without children gives its own names only.
length-childless-le :
    (fs : Fields) (limit : ℕ)
    → ((names : List Str) → collect_field fs limit names ≡ names)
    → length (collect_native_accessible_names (object fs) limit []) ≤ 3
unfolding collect_native_accessible_names
length-childless-le fs limit none_there =
    let own = length-own_names-le (object fs) limit in
    ground (arith, none_there (own_names (object fs) limit []).0)

childless :
    (window : Value) (limit : ℕ) (names : List Str)
    → collect_field (window_fields window) limit names ≡ names
unfolding collect_native_accessible_names Str-discrete ℕ_discrete
childless window limit names = refl

-- A window that the controller has already reduced has at most three accessible names when it is
-- reduced again, however many the first reduction collected from its children.
pub native_window_twice :
    (window : Value) (limit : ℕ)
    → length (collect_native_accessible_names (native_window window) limit []) ≤ 3
unfolding native_window
native_window_twice window limit =
    length-childless-le (window_fields window) limit (childless window limit)

get_field-keep_field :
    (o : Option Value) (j k : Str) (fs : Fields)
    → get_field k (keep_field o j fs)
      ≡ (if j == k then or_else o (get_field k fs) else get_field k fs)
get_field-keep_field none j k fs = ground arith
get_field-keep_field (some v) j k fs = get_field-insert_field j k v fs

get_field-keep_fields :
    (value : Value) (ks : List Str) (fs : Fields) (k : Str)
    → get_field k (keep_fields value ks fs)
      ≡ (if one_of ks k then or_else (get value k) (get_field k fs) else get_field k fs)
get_field-keep_fields value [] fs k = refl
get_field-keep_fields value (j ∷ ks) fs k = ground (
  arith,
  get_field-keep_fields value ks (keep_field (get value j) j fs) k,
  get_field-keep_field (get value j) j k fs,
)

abbrev added_keys : List Str
added_keys = bytes "outputDigest" ∷ bytes "originalBytes" ∷ bytes "_workbenchOutputOmitted" ∷ []

get_field-inserted :
    (k a b c : Str) (u v w : Value) (fs : Fields)
    → one_of (a ∷ b ∷ c ∷ []) k ≡ false
    → get_field k (insert_field a u (insert_field b v (insert_field c w fs))) ≡ get_field k fs
get_field-inserted k a b c u v w fs h = ground (
  arith,
  get_field-insert_field a k u (insert_field b v (insert_field c w fs)),
  get_field-insert_field b k v (insert_field c w fs),
  get_field-insert_field c k w fs,
)

get_field-keep_fields_end :
    (value : Value) (ks : List Str) (k : Str)
    → get_field k (keep_fields value ks end) ≡ (if one_of ks k then get value k else none)
unfolding get_field
get_field-keep_fields_end value ks k =
    let kept = get_field-keep_fields value ks end k in
    elim (Option-cases (get value k)) [ inl missing ↦ ground arith | inr (v, found) ↦ ground arith ]

-- An output whose encoding is longer than the limit is kept as a summary: apart from the three fields
-- that the summary adds, it has the output's fields with the eight allowed keys, and no other.
pub bounded_task_output-get :
    (to_vec : Value → Str) (sha256_bytes : Str → Str) (result : Value) (k : Str)
    → leb (length (to_vec result)) max_persisted ≡ false
    → one_of added_keys k ≡ false
    → get (bounded_task_output to_vec sha256_bytes result) k
      ≡ (if one_of summary_keys k then get result k else none)
unfolding bounded_task_output get
bounded_task_output-get to_vec sha256_bytes result k long other =
    rw (long, bounded_task_output)
      (get_field-inserted k (bytes "outputDigest") (bytes "originalBytes")
          (bytes "_workbenchOutputOmitted") (string (sha256_bytes (to_vec result)))
          (number (unsigned (length (to_vec result)))) (boolean true)
          (keep_fields result summary_keys end) other
        ∙ get_field-keep_fields_end result summary_keys k)
