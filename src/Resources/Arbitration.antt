-- ===== src/Resources/Arbitration.antt =====
-- What the permits promise: two operations never run on one resource at the same time.
use distributed_workbench.Base.{
  ℕ, Str, List, ◌≡◌, ◌∷◌, Result, Option, ◌≤◌, suc, ok, if◌then◌else◌, ◌||◌, ◌+◌, true, false, err,
  arith, [], zero, not, ◌&&◌, refl, Result-cases, Bool-cases, inl, inr, ap, sym, subst, ◌==◌, ◌>>◌,
  >>=-eq-ok,
}
use distributed_workbench.Base.Map.{lookup, insert, lookup-insert}
use distributed_workbench.Base.Map.Without.{
  listed, IdSet, member, remove_keys, listed-keys, remove_keys-without, lookup-without,
}
use distributed_workbench.Json.{Value}
use distributed_workbench.Protocol.{RpcError}
use distributed_workbench.Resources.{persist, extend, available, Store, Resources}
use distributed_workbench.Resources.Events.{
  Event, begins, drops, commands, Executor, nth, drop_nth, admit, react, run_events,
}
use distributed_workbench.Resources.Marks.{persist-resources, command-active}
use distributed_workbench.Resources.Permits.{
  sorted_distinct, drop_permit, begin, claim, check_resource, check_resources, check_scopes,
  granted, activate, deactivate,
}

-- How many of the permits hold the resource.
unfoldable pub holders : Str → List (List Str) → ℕ
holders key [] = 0
holders key (p ∷ ps) = (if listed key p then 1 else 0) + holders key ps

-- A resource is held by one permit at most, and by none unless it is marked active.
abbrev pub AreSeparate : List (List Str) → IdSet → Type 0
AreSeparate ps ids = (key : Str) → holders key ps ≤ (if member key ids then 1 else 0)

pub member-extend :
    (key : Str) (resources : List Str) (ids : IdSet)
    → member key (extend resources ids) ≡ (listed key resources || member key ids)
unfolding extend listed
member-extend key [] ids = refl
member-extend key (r ∷ rs) ids =
    ground (arith, member-extend key rs (insert r tt ids), lookup-insert key r tt ids)

pub listed-sorted_distinct :
    (key : Str) (resources : List Str)
    → listed key (sorted_distinct resources) ≡ listed key resources
unfolding lookup
listed-sorted_distinct key resources =
    ground (arith, listed-keys key (extend resources []), member-extend key resources [])

member-remove_keys :
    (key : Str) (resources : List Str) (ids : IdSet)
    → member key (remove_keys resources ids) ≡ (not (listed key resources) && member key ids)
member-remove_keys key rs ids =
    rw (remove_keys-without rs ids, lookup-without key rs ids) (ground arith)

pub available-eq-ok :
    (state : Resources) (key : Str)
    → available state key ≡ ok tt
    → (member key state.quarantined ≡ false) × (member key state.active ≡ false)
unfolding available
available-eq-ok state key h = (ground arith, ground arith)

holders-drop_nth :
    (key : Str) (n : ℕ) (ps : List (List Str))
    → holders key ps ≡ (if listed key (nth n ps) then 1 else 0) + holders key (drop_nth n ps)
unfolding holders listed
holders-drop_nth key n [] = refl
holders-drop_nth key zero (p ∷ ps) = refl
holders-drop_nth key (suc n) (p ∷ ps) = ground (arith, holders-drop_nth key n ps)

module _ (sha : Str → Str) where
  check_resource-free :
      (state : Resources) (clock : Str → ℕ) (grants : List Value) (key : Str)
      → check_resource sha state clock grants key ≡ ok tt
      → member key state.active ≡ false
  unfolding check_resource
  check_resource-free state clock grants key h =
      let (u, e, _) = >>=-eq-ok (available state key) _ h in (available-eq-ok state key e).1

  -- What passes the checks of `begin` is not active.
  check_resources-free :
      (state : Resources) (clock : Str → ℕ) (grants : List Value) (resources : List Str) (key : Str)
      → check_resources sha state clock grants resources ≡ ok tt
      → listed key resources ≡ true
      → member key state.active ≡ false
  unfolding check_resources listed
  check_resources-free state clock grants [] key h l = cc
  check_resources-free state clock grants (r ∷ rs) key h l =
      let (u, first, rest) = >>=-eq-ok (check_resource sha state clock grants r) _ h in
      elim (Bool-cases (r == key)) [
        | inl same ↦ ground (arith, check_resource-free state clock grants r first)
        | inr other ↦ check_resources-free state clock grants rs key rest (ground arith)
      ]

activate-AreSeparate :
    (ps : List (List Str)) (resources : List Str) (ids : IdSet)
    → AreSeparate ps ids
    → ((key : Str) → listed key resources ≡ true → member key ids ≡ false)
    → AreSeparate (resources ∷ ps) (extend resources ids)
unfolding holders
activate-AreSeparate ps rs ids h free key = elim (Bool-cases (listed key rs)) [
  | inl wanted ↦ rw (member-extend key rs ids, wanted) (ground (arith, h key, free key wanted))
  | inr other ↦ rw (member-extend key rs ids, other) (ground (arith, h key))
]

abbrev pub IsSeparate : Executor → Type 0
IsSeparate x = AreSeparate x.permits x.store.resources.active

admit-IsSeparate :
    (ps : List (List Str)) (resources : List Str) (r : Result RpcError (Unit {0}) × Store)
    → AreSeparate (resources ∷ ps) r.1.resources.active
    → IsSeparate (admit ps (granted resources r))
unfolding holders
admit-IsSeparate ps rs (ok u, s) h key = h key
admit-IsSeparate ps rs (err e, s) h key = omega (arith, h key)

activated :
    (sha : Str → Str) (io : Option Str) (resources : List Str) (s : Store)
    → (persist sha io (activate resources s)).1.resources.active
      ≡ extend resources s.resources.active
activated sha io rs s = ap (λ r. r.active) (persist-resources sha io (activate rs s))

claim-IsSeparate :
    (sha : Str → Str) (io : Option Str) (ps : List (List Str)) (resources : List Str) (s : Store)
    → AreSeparate (resources ∷ ps) (extend resources s.resources.active)
    → IsSeparate (admit ps (claim sha io resources s))
unfolding claim
claim-IsSeparate sha io ps [] s h key = h key
claim-IsSeparate sha io ps (r ∷ rs) s h key =
    admit-IsSeparate ps (r ∷ rs) (persist sha io (activate (r ∷ rs) s))
      (subst (AreSeparate ((r ∷ rs) ∷ ps)) (sym (activated sha io (r ∷ rs) s)) h) key

begin-IsSeparate :
    (sha : Str → Str) (x : Executor) (clock : Str → ℕ) (io : Option Str) (resources : List Str)
    (grants : List Value)
    → IsSeparate x
    → IsSeparate (admit x.permits (begin sha x.store clock io resources grants))
unfolding begin
begin-IsSeparate sha x clock io resources grants h =
    let wanted = sorted_distinct resources in
    let checks = check_resources sha x.store.resources clock grants wanted in
    elim (Result-cases (checks >> check_scopes wanted grants)) [
      | inl (e, refused) ↦ rw (refused, begin) h
      | inr (u, passed) ↦
          let (v, first, _) = >>=-eq-ok checks _ passed in
          rw (passed, begin)
            (claim-IsSeparate sha io x.permits wanted x.store (
              activate-AreSeparate x.permits wanted x.store.resources.active h
                (λ key. check_resources-free sha x.store.resources clock grants wanted key first)))
    ]

deactivated :
    (sha : Str → Str) (io : Option Str) (resources : List Str) (s : Store)
    → (drop_permit sha io resources s).resources.active ≡ remove_keys resources s.resources.active
unfolding drop_permit remove_keys
deactivated sha io [] s = refl
deactivated sha io (r ∷ rs) s =
    ap (λ r. r.active) (persist-resources sha io (deactivate (r ∷ rs) s))

drop-IsSeparate :
    (sha : Str → Str) (x : Executor) (n : ℕ) (io : Option Str)
    → IsSeparate x
    → IsSeparate (react sha x (drops n io))
unfolding react
drop-IsSeparate sha x n io h key =
    let p = nth n x.permits in
    elim (Bool-cases (listed key p)) [
      | inl given_back ↦
          rw (deactivated sha io p x.store, member-remove_keys key p x.store.resources.active)
            (ground (arith, h key, holders-drop_nth key n x.permits))
      | inr other ↦
          rw (deactivated sha io p x.store, member-remove_keys key p x.store.resources.active)
            (ground (arith, h key, holders-drop_nth key n x.permits))
    ]

react-IsSeparate :
    (sha : Str → Str) (x : Executor) (e : Event) → IsSeparate x → IsSeparate (react sha x e)
unfolding react
react-IsSeparate sha x (begins clock io resources grants) h =
    begin-IsSeparate sha x clock io resources grants h
react-IsSeparate sha x (drops n io) h = drop-IsSeparate sha x n io h
react-IsSeparate sha x (commands env action params) h =
    subst (AreSeparate x.permits) (sym (command-active sha x.store env action params)) h

-- Whatever commands, permits and failing writes an executor sees, no resource is held by two
-- outstanding permits, and a resource that is held is marked active.
pub run_events-IsSeparate :
    (sha : Str → Str) (x : Executor) (es : List Event)
    → IsSeparate x
    → IsSeparate (run_events sha x es)
unfolding run_events
run_events-IsSeparate sha x [] h = h
run_events-IsSeparate sha x (e ∷ es) h =
    run_events-IsSeparate sha (react sha x e) es (react-IsSeparate sha x e h)
