-- ===== src/Executor/Stale.antt =====
-- What an executor of crates/workbench-runtime/src/executor.rs accepts after it has recorded a fence.
use distributed_workbench.Base.{
  ℕ, ◌≤◌, Str, bytes, true, Option, none, some, ◌≡◌, refl, arith, List, Result, ok, err, Bool-cases,
  Result-cases, inl, inr, ok-injective, ◌⊎◌, subst, sym, ◌∙◌,
}
use distributed_workbench.Base.Map.{Map}
use distributed_workbench.Executor.{workspace_driver, required_str}
use distributed_workbench.Executor.Fences.{
  FenceRecord, Enforced, check_all, is_workspace, key_of, u64_of, array_of, answer, enforce_fences,
  enforce_contract, enforce_authority, enforce_given, enforce_expected, enforce_supplied, mismatch,
}
use distributed_workbench.Executor.Keeping.{Call, enforce, enforced, enforced-rises}
use distributed_workbench.Executor.Rendering.{Contract, canonical_name, supplied_resources, covers}
use distributed_workbench.Executor.Rising.{fence_at, HasPassed, HavePassed, check_all-HavePassed}
use distributed_workbench.Json.{Value, Values, nil, cons, get}
use distributed_workbench.Protocol.{RpcError}

module _ (clock : ℕ → ℕ) (save : Map FenceRecord → Result RpcError (Unit {0}))
    (records : Map FenceRecord) (o : Enforced) (fine : o.result ≡ ok tt) where
  answer-fails : (e : RpcError) → answer clock save records (err e) ≡ some o → ⊥
  answer-fails e h = cc

  fences-HavePassed :
      (authorities : Values)
      → enforce_fences clock save records authorities ≡ some o
      → HavePassed records authorities
  unfolding enforce_fences
  fences-HavePassed authorities h = elim (Result-cases (check_all records clock 0 authorities)) [
    | inl (e, refused) ↦ absurd (answer-fails e (rw (refused, enforce_fences) at h))
    | inr (u, passed) ↦ check_all-HavePassed records clock 0 authorities u passed
  ]

  supplied-HavePassed :
      (authorities : Values) (expected : List Str) (supplied : Result RpcError (List Str))
      → enforce_supplied clock save records authorities expected supplied ≡ some o
      → HavePassed records authorities
  supplied-HavePassed authorities expected (err e) h = absurd (answer-fails e h)
  supplied-HavePassed authorities expected (ok supplied) h =
      elim (Bool-cases (covers expected supplied)) [
        | inl covered ↦ fences-HavePassed authorities (rw covered at h)
        | inr other ↦ absurd (answer-fails mismatch (rw other at h))
      ]

  expected-HavePassed :
      (authorities : Values) (expected : Option (Result RpcError (List Str)))
      → enforce_expected clock save records authorities expected ≡ some o
      → HavePassed records authorities
  expected-HavePassed authorities none h = cc
  expected-HavePassed authorities (some (err e)) h = absurd (answer-fails e h)
  expected-HavePassed authorities (some (ok expected)) h =
      supplied-HavePassed authorities expected (supplied_resources authorities) h

  given-HavePassed :
      (canonical : Str) (expected : Option (Result RpcError (List Str))) (given : Option Values)
      → enforce_given clock save records canonical expected given ≡ some o
      → (authorities : Values) × (given ≡ some authorities) × HavePassed records authorities
  given-HavePassed canonical expected none h = absurd (answer-fails _ h)
  given-HavePassed canonical expected (some nil) h = absurd (answer-fails _ h)
  given-HavePassed canonical expected (some (cons a rest)) h =
      (cons a rest, refl, expected-HavePassed (cons a rest) expected h)

-- The authority is among those that a call presents.
abbrev pub IsAmong : Value → Values → Type 0
IsAmong a nil = ⊥
IsAmong a (cons b rest) = (b ≡ a) ⊎ IsAmong a rest

passed-among :
    (records : Map FenceRecord) (a : Value) (authorities : Values)
    → IsAmong a authorities
    → HavePassed records authorities
    → HasPassed records a
passed-among records a nil h p = absurd h
passed-among records a (cons b rest) (inl e) p = subst (HasPassed records) e p.0
passed-among records a (cons b rest) (inr h) p = passed-among records a rest h p.1

-- What an accepted authority over a workspace says.
pub record Presents (params : Value) (controller_id resource : Str) (fence : ℕ) : Type 0 where
  pub authorities : Values
  pub given : array_of (get params (bytes "_authority")) ≡ some authorities
  pub authority : Value
  pub among : IsAmong authority authorities
  pub named : required_str authority (bytes "controllerId") ≡ ok controller_id
  pub over : required_str authority (bytes "resource") ≡ ok resource
  pub workspace : is_workspace resource ≡ true
  pub fenced : u64_of (get authority (bytes "fence")) ≡ some fence

presented :
    (records : Map FenceRecord) (params : Value) (controller_id resource : Str) (fence : ℕ)
    (p : Presents params controller_id resource fence)
    → HasPassed records p.authority
    → fence_at (key_of controller_id resource) records ≤ fence
presented records params controller_id resource fence p h =
    let named : h.controller_id ≡ controller_id = ok-injective (sym h.named ∙ p.named) in
    let over : h.resource ≡ resource = ok-injective (sym h.over ∙ p.over) in
    let workspace : is_workspace h.resource ≡ true = rw over p.workspace in
    let f = h.fenced workspace in
    let same : f.0 ≡ fence = cc (f.1, p.fenced) in
    subst (λ k. fence_at (key_of controller_id resource) records ≤ k) same
      (subst (λ r. fence_at (key_of controller_id r) records ≤ f.0) over
        (subst (λ c. fence_at (key_of c h.resource) records ≤ f.0) named f.2))

-- No executor ever accepts a fence below one that it had recorded for the controller and workspace
-- before, whatever calls came in between and whether or not the file could be written: a call of a
-- capability that needs the workspace's driver succeeds only with fences that are no less than every
-- fence recorded at any earlier time.
pub accepted-AtLeast :
    (to_string : Value → Str) (rounds : ℕ) (catalog : Str → Option Contract) (executor_id : Str)
    (records : Map FenceRecord) (cs : List Call) (c : Call) (locks : List Str) (o : Enforced)
    (controller_id resource : Str) (fence : ℕ)
    → catalog (canonical_name c.action)
      ≡ some (record { authority = workspace_driver; locks = locks })
    → enforce to_string rounds catalog executor_id
        (enforced to_string rounds catalog executor_id cs records)
        c
      ≡ some o
    → o.result ≡ ok tt
    → Presents c.params controller_id resource fence
    → fence_at (key_of controller_id resource) records ≤ fence
unfolding enforce enforce_authority enforce_contract
accepted-AtLeast to_string rounds catalog executor_id records cs c locks o controller_id resource
      fence known accepted fine p =
    let now = enforced to_string rounds catalog executor_id cs records in
    let got =
      given-HavePassed c.clock c.save now o fine (canonical_name c.action) _
        (array_of (get c.params (bytes "_authority"))) (rw (known, enforce_contract) at accepted) in
    let same : got.0 ≡ p.authorities = cc (got.1, p.given) in
    let passed =
      passed-among now p.authority p.authorities p.among (subst (HavePassed now) same got.2) in
    let low = presented now c.params controller_id resource fence p passed in
    let risen =
      enforced-rises to_string rounds catalog executor_id cs records
        (key_of controller_id resource) in
    omega arith
