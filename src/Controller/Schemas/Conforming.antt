-- ===== src/Controller/Schemas/Conforming.antt =====
-- What `validate_schema` of crates/workbench-runtime/src/controller.rs decides.
use distributed_workbench.Base.{
  ℕ, suc, Str, bytes, true, false, not, Option, none, some, ◌≡◌, refl, ◌⊎◌, inl, inr, ◌↔◌, Result,
  ok, guard, ◌>>◌, ◌≢◌, subst, Bool-cases,
}
use distributed_workbench.Controller.Schemas.{
  is_free, property, absent, other, given, validate_schema, validate_fields, validate_items, unless,
  dot, step, schema_error, forbids, known,
}
use distributed_workbench.Controller.Schemas.Agreeing.{is_free-IsFree}
use distributed_workbench.Controller.Schemas.Fitting.{IsFree, Fits, FitFields, FitItems}
use distributed_workbench.Controller.Schemas.Passing.{
  Passes, both, first, second, guarded, guarding, not-true, scalar_iff, required_iff,
}
use distributed_workbench.Json.{
  Value, Values, Fields, null, boolean, number, string, array, object, nil, cons, end, field, get,
  get_field,
}
use distributed_workbench.Protocol.{RpcError}

not_forbidden : (o : Option Value) → (forbids o ≡ false) ↔ (o ≢ some (boolean false))
not_forbidden (some (boolean true)) = (λ h e. cc, λ h. refl)
not_forbidden (some (boolean false)) = (λ h e. cc, λ h. absurd (h refl))
not_forbidden o = (λ h e. cc, λ h. refl)

module _ (show : Option Value → Str) (show_f64 : Option ℕ → Str) where
  unless-IsFree {ℓ} :
      {P : Type ℓ} (schema : Value) (r : Result RpcError (Unit {0}))
      → (Passes r ↔ P)
      → Passes (unless show show_f64 (is_free schema) r) ↔ (IsFree schema ⊎ P)
  unless-IsFree schema r h =
      let free = is_free-IsFree schema in
      elim (Bool-cases (is_free schema)) [
        | inl all ↦ (λ _. inl (free.0 all), λ _. rw all refl)
        | inr some_of ↦ (
          λ k. inr (h.0 (rw some_of at k)),
          elim [ inl f ↦ cc (free.1 f, some_of) | inr k ↦ rw some_of (h.1 k) ],
        )
      ]

  both_iff {ℓ κ} :
      {P : Type ℓ} {Q : Type κ} (a b : Result RpcError (Unit {0}))
      → (Passes a ↔ P)
      → (Passes b ↔ Q)
      → Passes (a >> b) ↔ (P × Q)
  both_iff a b h k =
      (λ r. (h.0 (first a b r), k.0 (second a b r)), λ r. both a b (h.1 r.0) (k.1 r.1))

  known_iff :
      (found : Option Value) (extra : Option Value) (e : RpcError) (child : Value) (path : Str)
      → ((s : Value) → Passes (validate_schema show show_f64 s child path) ↔ Fits s child)
      → Passes (elim (known found) [
        | absent ↦ ok tt
        | other ↦ guard (not (forbids extra)) e
        | given s ↦ validate_schema show show_f64 s child path
      ])
        ↔ (((s : Value) → found ≡ some s → Fits s child)
            × (found ≡ none → extra ≢ some (boolean false)))
  known_iff none extra e child path h = (
    λ k. (λ s f. cc, λ _. (not_forbidden extra).0 (not-true _ (guarded _ e k))),
    λ k. guarding _ e (rw ((not_forbidden extra).1 (k.1 refl)) refl),
  )
  known_iff (some s) extra e child path h = (
    λ k. (λ t f. let same : s ≡ t = cc f in subst (λ x. Fits x child) same ((h s).0 k), λ f. cc),
    λ k. (h s).1 (k.0 s refl),
  )

  field_iff :
      (properties extra : Option Value) (key : Str) (e : RpcError) (child : Value) (path : Str)
      → ((s : Value) → Passes (validate_schema show show_f64 s child path) ↔ Fits s child)
      → Passes (elim (property properties key) [
        | absent ↦ ok tt
        | other ↦ guard (not (forbids extra)) e
        | given s ↦ validate_schema show show_f64 s child path
      ])
        ↔ ((ps : Fields)
            → properties ≡ some (object ps)
            → ((s : Value) → get_field key ps ≡ some s → Fits s child)
              × (get_field key ps ≡ none → extra ≢ some (boolean false)))
  field_iff (some (object ps)) extra key e child path h =
      let one = known_iff (get_field key ps) extra e child path h in
      (
        λ k qs f.
            let same : ps ≡ qs = cc f in
            subst
              (λ xs.
                ((s : Value) → get_field key xs ≡ some s → Fits s child)
                × (get_field key xs ≡ none → extra ≢ some (boolean false)))
              same (one.0 k),
        λ k. one.1 (k ps refl),
      )
  field_iff properties extra key e child path h = (λ k ps f. cc, λ k. refl)

  item_iff :
      (items : Option Value) (child : Value) (path : Str)
      → ((s : Value) → Passes (validate_schema show show_f64 s child path) ↔ Fits s child)
      → Passes (elim items [ none ↦ ok tt | some s ↦ validate_schema show show_f64 s child path ])
        ↔ ((s : Value) → items ≡ some s → Fits s child)
  item_iff none child path h = (λ k s e. cc, λ k. refl)
  item_iff (some s) child path h = (
    λ k t e. let same : s ≡ t = cc e in subst (λ x. Fits x child) same ((h s).0 k),
    λ k. (h s).1 (k s refl),
  )

  mutual
    unfolding validate_schema

    value_iff :
        (schema value : Value) (path : Str)
        → Passes (validate_schema show show_f64 schema value path) ↔ Fits schema value
    value_iff schema (object fs) path = unless-IsFree schema _ (
        both_iff _ _ (scalar_iff show show_f64 schema (object fs) path) (
          both_iff _ _ (required_iff show show_f64 (get schema (bytes "required")) fs path)
            (fields_iff schema fs path)))
    value_iff schema (array vs) path = unless-IsFree schema _ (
        both_iff _ _ (scalar_iff show show_f64 schema (array vs) path) (items_iff schema vs 0 path))
    value_iff schema null path = unless-IsFree schema _ (scalar_iff show show_f64 schema null path)
    value_iff schema (boolean b) path =
        unless-IsFree schema _ (scalar_iff show show_f64 schema (boolean b) path)
    value_iff schema (number n) path =
        unless-IsFree schema _ (scalar_iff show show_f64 schema (number n) path)
    value_iff schema (string s) path =
        unless-IsFree schema _ (scalar_iff show show_f64 schema (string s) path)

    fields_iff :
        (schema : Value) (fs : Fields) (path : Str)
        → Passes (validate_fields show show_f64 (get schema (bytes "properties")) schema fs path)
          ↔ FitFields schema fs
    fields_iff schema end path = (λ _. tt, λ _. refl)
    fields_iff schema (field key child fs) path =
        both_iff _ _
          (field_iff (get schema (bytes "properties")) (get schema (bytes "additionalProperties"))
            key (schema_error (dot show show_f64 path key) (bytes "is not allowed")) child
            (dot show show_f64 path key) (λ s. value_iff s child (dot show show_f64 path key)))
          (fields_iff schema fs path)

    items_iff :
        (schema : Value) (vs : Values) (index : ℕ) (path : Str)
        → Passes (validate_items show show_f64 (get schema (bytes "items")) vs index path)
          ↔ FitItems schema vs
    items_iff schema nil index path = (λ _. tt, λ _. refl)
    items_iff schema (cons child vs) index path =
        both_iff _ _
          (item_iff (get schema (bytes "items")) child (step show show_f64 path index)
            (λ s. value_iff s child (step show show_f64 path index)))
          (items_iff schema vs (suc index) path)

-- A value passes a schema, whatever the path it is reported under, exactly when the schema is no
-- object or an empty one, or the value is equal to one of `enum`, of a type in `type`, and as a double
-- neither below `minimum` nor above `maximum`, an object has the keys in `required`, each field or
-- item fits what `properties` or `items` has for it, and where `properties` is an object and
-- `additionalProperties` is false no field is without a schema there.
pub validate_schema_iff :
    (show : Option Value → Str) (show_f64 : Option ℕ → Str) (schema value : Value) (path : Str)
    → (validate_schema show show_f64 schema value path ≡ ok tt) ↔ Fits schema value
validate_schema_iff show show_f64 schema value path = value_iff show show_f64 schema value path
