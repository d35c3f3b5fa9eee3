-- ===== src/Controller/Schemas/Agreeing.antt =====
-- What each test of `validate_schema` of crates/workbench-runtime/src/controller.rs says of a value.
use distributed_workbench.Base.{
  Str, bytes, true, false, Option, none, some, ◌≡◌, refl, ◌⊎◌, inl, inr, ◌↔◌, arith, Bool-cases,
  subst, ◌==◌, ◌&&◌, ◌||◌, ap,
}
use distributed_workbench.Base.Double.{double_lt}
use distributed_workbench.Controller.Schemas.{
  value_matches_type, value_eq, string, of_enum, object, is_free, holds_value, get, cons, boolean,
  Fields, number, field, end, array, get_field, float, Number, unsigned, double_lt, number_as_f64,
  negative, of_type, matches_types, is_below, any_kind, as_f64, contains_key,
}
use distributed_workbench.Controller.Schemas.Fitting.{
  Names, IsKind, IsItem, IsFree, IsAllowed, FitsScalar,
}
use distributed_workbench.Json.{
  Value, Values, string, get, Fields, nil, end, array, null, get_field, Number,
}
use distributed_workbench.Json.Equality.{value_eq}
use distributed_workbench.Json.Objects.{contains_key}

pub is_free-IsFree : (schema : Value) → (is_free schema ≡ true) ↔ IsFree schema
is_free-IsFree (object end) = (λ h fs e. cc, λ h. refl)
is_free-IsFree (object (field k v fs)) = (λ h. cc, λ h. cc (h (field k v fs) refl))
is_free-IsFree null = (λ h fs e. cc, λ h. refl)
is_free-IsFree (boolean b) = (λ h fs e. cc, λ h. refl)
is_free-IsFree (number n) = (λ h fs e. cc, λ h. refl)
is_free-IsFree (string s) = (λ h fs e. cc, λ h. refl)
is_free-IsFree (array vs) = (λ h fs e. cc, λ h. refl)

holds_value-IsAllowed :
    (allowed : Values) (v : Value) → (holds_value allowed v ≡ true) ↔ IsAllowed v allowed
holds_value-IsAllowed nil v = (λ h. cc, λ h. absurd h.1)
holds_value-IsAllowed (cons w ws) v =
    let rest = holds_value-IsAllowed ws v in
    (
      λ h. elim (Bool-cases (value_eq w v)) [
        | inl same ↦ (w, inl refl, same)
        | inr other ↦
            let (u, there, same) = rest.0 (ground (arith, h, other)) in (u, inr there, same)
      ],
      λ h. elim h.1 [
        | inl e ↦ rw e (rw h.2 refl)
        | inr there ↦ ground (arith, rest.1 (h.0, there, h.2))
      ],
    )

of_enum_iff :
    (o : Option Value) (v : Value)
    → (of_enum o v ≡ true) ↔ ((ws : Values) → o ≡ some (array ws) → IsAllowed v ws)
of_enum_iff none v = (λ h ws e. cc, λ h. refl)
of_enum_iff (some (array allowed)) v = (
  λ h ws e.
      let same : allowed ≡ ws = cc e in
      subst (IsAllowed v) same ((holds_value-IsAllowed allowed v).0 h),
  λ h. (holds_value-IsAllowed allowed v).1 (h allowed refl),
)
of_enum_iff (some null) v = (λ h ws e. cc, λ h. refl)
of_enum_iff (some (boolean b)) v = (λ h ws e. cc, λ h. refl)
of_enum_iff (some (number n)) v = (λ h ws e. cc, λ h. refl)
of_enum_iff (some (string s)) v = (λ h ws e. cc, λ h. refl)
of_enum_iff (some (object fs)) v = (λ h ws e. cc, λ h. refl)

either_kind :
    (kind : Str)
    → ((kind == bytes "integer" && true) || kind == bytes "number") ≡ true
    → (kind ≡ bytes "integer") ⊎ (kind ≡ bytes "number")
either_kind kind h = elim (Bool-cases (kind == bytes "integer")) [
  | inl whole ↦ inl (ground arith)
  | inr other ↦ inr (ground arith)
]

value_matches_type-IsKind :
    (v : Value) (kind : Str) → (value_matches_type v kind ≡ true) ↔ IsKind v kind
unfolding value_matches_type
value_matches_type-IsKind null kind = (λ h. ground arith, λ h. ground arith)
value_matches_type-IsKind (boolean b) kind = (λ h. ground arith, λ h. ground arith)
value_matches_type-IsKind (number (float b)) kind = (λ h. ground arith, λ h. ground arith)
value_matches_type-IsKind (number (unsigned n)) kind =
    (λ h. either_kind kind h, elim [ inl e ↦ ground arith | inr e ↦ ground arith ])
value_matches_type-IsKind (number (negative n)) kind =
    (λ h. either_kind kind h, elim [ inl e ↦ ground arith | inr e ↦ ground arith ])
value_matches_type-IsKind (string s) kind = (λ h. ground arith, λ h. ground arith)
value_matches_type-IsKind (array vs) kind = (λ h. ground arith, λ h. ground arith)
value_matches_type-IsKind (object fs) kind = (λ h. ground arith, λ h. ground arith)

skipped :
    {P : Str → Type 0} {A : Type 0} (ks : Values) (v w : Value)
    → A ↔ ((kind : Str) × IsItem (string kind) ks × P kind)
    → ((kind : Str) → w ≡ string kind → ⊥)
    → A ↔ ((kind : Str) × IsItem (string kind) (cons w ks) × P kind)
skipped ks v w rest differs = (
  λ h. let (kind, there, is) = rest.0 h in (kind, inr there, is),
  λ h. elim h.1 [ inl e ↦ absurd (differs h.0 e) | inr there ↦ rest.1 (h.0, there, h.2) ],
)

any_kind-IsKind :
    (kinds : Values) (v : Value)
    → (any_kind kinds v ≡ true) ↔ ((kind : Str) × IsItem (string kind) kinds × IsKind v kind)
any_kind-IsKind nil v = (λ h. cc, λ h. absurd h.1)
any_kind-IsKind (cons (string k) ks) v =
    let rest = any_kind-IsKind ks v in
    let one = value_matches_type-IsKind v k in
    (
      λ h. elim (Bool-cases (value_matches_type v k)) [
        | inl same ↦ (k, inl refl, one.0 same)
        | inr other ↦
            let (kind, there, is) = rest.0 (ground (arith, h, other)) in (kind, inr there, is)
      ],
      λ h. elim h.1 [
        | inl e ↦ let same : h.0 ≡ k = cc e in rw (one.1 (subst (IsKind v) same h.2)) refl
        | inr there ↦ ground (arith, rest.1 (h.0, there, h.2))
      ],
    )
any_kind-IsKind (cons null ks) v = skipped ks v null (any_kind-IsKind ks v) (λ k e. cc)
any_kind-IsKind (cons (boolean b) ks) v =
    skipped ks v (boolean b) (any_kind-IsKind ks v) (λ k e. cc)
any_kind-IsKind (cons (number n) ks) v = skipped ks v (number n) (any_kind-IsKind ks v) (λ k e. cc)
any_kind-IsKind (cons (array vs) ks) v = skipped ks v (array vs) (any_kind-IsKind ks v) (λ k e. cc)
any_kind-IsKind (cons (object fs) ks) v =
    skipped ks v (object fs) (any_kind-IsKind ks v) (λ k e. cc)

matches_types-IsKind :
    (types v : Value)
    → (matches_types types v ≡ true) ↔ ((kind : Str) × Names types kind × IsKind v kind)
matches_types-IsKind (string k) v = (
  λ h. (k, inl refl, (value_matches_type-IsKind v k).0 h),
  λ h. elim h.1 [
    | inl e ↦
        let same : h.0 ≡ k = cc e in (value_matches_type-IsKind v k).1 (subst (IsKind v) same h.2)
    | inr listed ↦ cc listed.1
  ],
)
matches_types-IsKind (array kinds) v = (
  λ h.
      let (kind, there, is) = (any_kind-IsKind kinds v).0 h in (kind, inr (kinds, refl, there), is),
  λ h. elim h.1 [
    | inl e ↦ cc e
    | inr listed ↦
        let same : listed.0 ≡ kinds = cc (listed.1) in
        (any_kind-IsKind kinds v).1 (h.0, subst (IsItem (string h.0)) same listed.2, h.2)
  ],
)
matches_types-IsKind null v = (λ h. cc, λ h. elim h.1 [ inl e ↦ cc e | inr l ↦ cc l.1 ])
matches_types-IsKind (boolean b) v = (λ h. cc, λ h. elim h.1 [ inl e ↦ cc e | inr l ↦ cc l.1 ])
matches_types-IsKind (number n) v = (λ h. cc, λ h. elim h.1 [ inl e ↦ cc e | inr l ↦ cc l.1 ])
matches_types-IsKind (object fs) v = (λ h. cc, λ h. elim h.1 [ inl e ↦ cc e | inr l ↦ cc l.1 ])

of_type_iff :
    (o : Option Value) (v : Value)
    → (of_type o v ≡ true)
      ↔ ((types : Value) → o ≡ some types → (kind : Str) × Names types kind × IsKind v kind)
of_type_iff none v = (λ h types e. cc, λ h. refl)
of_type_iff (some t) v = (
  λ h types e.
      let same : t ≡ types = cc e in
      subst (λ x. (kind : Str) × Names x kind × IsKind v kind) same
        ((matches_types-IsKind t v).0 h),
  λ h. (matches_types-IsKind t v).1 (h t refl),
)

-- What the comparison of two numbers says where both are there.
abbrev Below : (a b : Option Value) → Type 0
Below a b =
    (m n : Number)
    → a ≡ some (number m)
    → b ≡ some (number n)
    → double_lt (number_as_f64 m) (number_as_f64 n) ≡ false

is_below-Below : (a b : Option Value) → (is_below (as_f64 a) (as_f64 b) ≡ false) ↔ Below a b
is_below-Below (some (number m)) (some (number n)) = (
  λ h p q e f.
      let same : m ≡ p = cc e in
      let also : n ≡ q = cc f in
      subst (λ x. double_lt (number_as_f64 x) (number_as_f64 q) ≡ false) same
        (subst (λ y. double_lt (number_as_f64 m) (number_as_f64 y) ≡ false) also h),
  λ h. h m n refl refl,
)
is_below-Below a b = (λ h m n e f. cc, λ h. refl)

pub tests-FitsScalar :
    (schema v : Value)
    → ((of_enum (get schema (bytes "enum")) v ≡ true)
        × (of_type (get schema (bytes "type")) v ≡ true)
        × (is_below (as_f64 (some v)) (as_f64 (get schema (bytes "minimum"))) ≡ false)
        × (is_below (as_f64 (get schema (bytes "maximum"))) (as_f64 (some v)) ≡ false))
      ↔ FitsScalar schema v
tests-FitsScalar schema v = (
  λ (a, b, c, d). record {
    allowed = (of_enum_iff _ v).0 a;
    typed = (of_type_iff _ v).0 b;
    not_less = λ least n e f. (is_below-Below (some v) _).0 c n least (ap some f) e;
    not_more = λ most n e f. (is_below-Below _ (some v)).0 d most n e (ap some f);
  },
  λ h. (
    (of_enum_iff _ v).1 h.allowed,
    (of_type_iff _ v).1 h.typed,
    (is_below-Below (some v) _).1 (λ n least e f. h.not_less least n f cc),
    (is_below-Below _ (some v)).1 (λ most n e f. h.not_more most n e cc),
  ),
)

pub contains_key-get_field :
    (fs : Fields) (key : Str)
    → (contains_key fs key ≡ true) ↔ ((v : Value) × (get_field key fs ≡ some v))
unfolding contains_key get_field
contains_key-get_field end key = (λ h. cc, λ h. cc (h.1))
contains_key-get_field (field k v fs) key = elim (Bool-cases (k == key)) [
  | inl same ↦ (λ h. (v, rw same refl), λ h. rw same refl)
  | inr other ↦
      let rest = contains_key-get_field fs key in
      (
        λ h. let (w, there) = rest.0 (rw other at h) in (w, rw other there),
        λ h. rw other (rest.1 (h.0, rw other at h.1)),
      )
]
