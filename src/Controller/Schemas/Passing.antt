-- ===== src/Controller/Schemas/Passing.antt =====
-- The tests of `validate_schema` of crates/workbench-runtime/src/controller.rs on one value: of any
-- kind, and of the keys of an object.
use distributed_workbench.Base.{
  ℕ, Str, bytes, Bool, true, false, not, Option, some, ◌≡◌, refl, inl, inr, ◌↔◌, Result, ok, err,
  guard, ◌>>◌, arith, subst,
}
use distributed_workbench.Controller.Schemas.{
  of_enum, of_type, check_scalar, check_keys, check_required,
}
use distributed_workbench.Controller.Schemas.Agreeing.{contains_key-get_field, tests-FitsScalar}
use distributed_workbench.Controller.Schemas.Fitting.{IsItem, FitsScalar}
use distributed_workbench.Json.{
  Value, Values, Fields, null, boolean, number, string, array, object, nil, cons, get, get_field,
}
use distributed_workbench.Protocol.{RpcError}

abbrev pub Passes : Result RpcError (Unit {0}) → Type 0
Passes r = r ≡ ok tt

pub both : (a b : Result RpcError (Unit {0})) → Passes a → Passes b → Passes (a >> b)
both (ok tt) b h k = k
both (err e) b h k = cc

pub first : (a b : Result RpcError (Unit {0})) → Passes (a >> b) → Passes a
first (ok tt) b h = refl
first (err e) b h = cc

pub second : (a b : Result RpcError (Unit {0})) → Passes (a >> b) → Passes b
second (ok tt) b h = h
second (err e) b h = cc

pub guarded : (b : Bool) (e : RpcError) → Passes (guard b e) → b ≡ true
guarded true e h = refl
guarded false e h = cc

pub guarding : (b : Bool) (e : RpcError) → b ≡ true → Passes (guard b e)
guarding true e h = refl
guarding false e h = cc

pub not-true : (b : Bool) → not b ≡ true → b ≡ false
not-true b h = ground arith

-- The object has each text among the keys.
abbrev HasKeys : Values → Fields → Type 0
HasKeys ks fs = (key : Str) → IsItem (string key) ks → (v : Value) × (get_field key fs ≡ some v)

skip_key :
    (w : Value) (ks : Values) (fs : Fields) (P : Type 0)
    → ((k : Str) → w ≡ string k → ⊥)
    → P ↔ HasKeys ks fs
    → P ↔ HasKeys (cons w ks) fs
skip_key w ks fs P differs rest = (
  λ h key. elim [ inl e ↦ absurd (differs key e) | inr there ↦ rest.0 h key there ],
  λ h. rest.1 (λ key there. h key (inr there)),
)

module _ (show : Option Value → Str) (show_f64 : Option ℕ → Str) where
  pub scalar_iff :
      (schema v : Value) (path : Str)
      → Passes (check_scalar show show_f64 schema v path) ↔ FitsScalar schema v
  unfolding check_scalar
  scalar_iff schema v path =
      let tests = tests-FitsScalar schema v in
      (
        λ h.
            let h1 = second (guard (of_enum (get schema (bytes "enum")) v) _) _ h in
            let h2 = second (guard (of_type (get schema (bytes "type")) v) _) _ h1 in
            tests.0 (
              guarded _ _ (first _ _ h),
              guarded _ _ (first _ _ h1),
              not-true _ (guarded _ _ (first _ _ h2)),
              not-true _ (guarded _ _ (second _ _ h2)),
            ),
        λ h.
            let (a, b, c, d) = tests.1 h in
            both _ _ (guarding _ _ a) (
              both _ _ (guarding _ _ b)
                (both _ _ (guarding _ _ (rw c refl)) (guarding _ _ (rw d refl)))),
      )

  keys_iff :
      (ks : Values) (fs : Fields) (path : Str)
      → Passes (check_keys show show_f64 ks fs path) ↔ HasKeys ks fs
  unfolding check_keys
  keys_iff nil fs path = (λ h key there. absurd there, λ h. refl)
  keys_iff (cons (string k) ks) fs path =
      let rest = keys_iff ks fs path in
      let one = contains_key-get_field fs k in
      (
        λ h key. elim [
          | inl e ↦
              let same : k ≡ key = cc e in
              subst (λ x. (v : Value) × (get_field x fs ≡ some v)) same
                (one.0 (guarded _ _ (first _ _ h)))
          | inr there ↦ rest.0 (second _ _ h) key there
        ],
        λ h.
            both _ _ (guarding _ _ (one.1 (h k (inl refl))))
              (rest.1 (λ key there. h key (inr there))),
      )
  keys_iff (cons null ks) fs path = skip_key null ks fs _ (λ k e. cc) (keys_iff ks fs path)
  keys_iff (cons (boolean b) ks) fs path =
      skip_key (boolean b) ks fs _ (λ k e. cc) (keys_iff ks fs path)
  keys_iff (cons (number n) ks) fs path =
      skip_key (number n) ks fs _ (λ k e. cc) (keys_iff ks fs path)
  keys_iff (cons (array vs) ks) fs path =
      skip_key (array vs) ks fs _ (λ k e. cc) (keys_iff ks fs path)
  keys_iff (cons (object gs) ks) fs path =
      skip_key (object gs) ks fs _ (λ k e. cc) (keys_iff ks fs path)

  pub required_iff :
      (o : Option Value) (fs : Fields) (path : Str)
      → Passes (check_required show show_f64 o fs path) ↔ (
          (keys : Values) (key : Str)
          → o ≡ some (array keys)
          → IsItem (string key) keys
          → (v : Value) × (get_field key fs ≡ some v))
  required_iff (some (array ks)) fs path = (
    λ h keys key e.
        let same : ks ≡ keys = cc e in
        subst (λ xs. HasKeys xs fs) same ((keys_iff ks fs path).0 h) key,
    λ h. (keys_iff ks fs path).1 (λ key. h ks key refl),
  )
  required_iff o fs path = (λ h keys key e. cc, λ h. refl)
