-- ===== src/Executor/Keeping.antt =====
-- What calls of the executor of crates/workbench-runtime/src/executor.rs leave of its fences.
use distributed_workbench.Base.{
  ℕ, ◌≤◌, Str, bytes, Option, none, some, arith, List, [], ◌∷◌, Result, ok, err, Bool-cases, inl,
  inr,
}
use distributed_workbench.Base.Map.{Map}
use distributed_workbench.Executor.{
  CapabilityAuthority, no_authority, workspace_driver, desktop_session, resource_lease,
}
use distributed_workbench.Executor.Fences.{
  FenceRecord, Enforced, array_of, answer, enforce_fences, enforce_contract, enforce_authority,
  enforce_given, enforce_expected, enforce_supplied, enforce_lease, needs_grant, is_free_name,
  mismatch,
}
use distributed_workbench.Executor.Rendering.{
  Contract, canonical_name, expected_resources, supplied_resources, covers,
  render_authority_resource,
}
use distributed_workbench.Executor.Rising.{fence_at, Rises, enforce_fences-Rises}
use distributed_workbench.Json.{Value, Values, nil, cons, get}
use distributed_workbench.Protocol.{RpcError}

-- What a call leaves of the fences; a call that does not return leaves them.
abbrev pub left : Map FenceRecord → Option Enforced → Map FenceRecord
left records none = records
left records (some o) = o.records

abbrev AreKept : Map FenceRecord → Option Enforced → Type 0
AreKept records o = (key : Str) → fence_at key records ≤ fence_at key (left records o)

returned-AreKept :
    (records : Map FenceRecord) (o : Option Enforced) → Rises records o → AreKept records o
returned-AreKept records none h = absurd h
returned-AreKept records (some o) h = h

none-AreKept : (records : Map FenceRecord) → AreKept records none
none-AreKept records key = omega arith

module _ (clock : ℕ → ℕ) (save : Map FenceRecord → Result RpcError (Unit {0}))
    (records : Map FenceRecord) where
  answer-AreKept :
      (result : Result RpcError (Unit {0})) → AreKept records (answer clock save records result)
  answer-AreKept result key = omega arith

  supplied-AreKept :
      (authorities : Values) (expected : List Str) (supplied : Result RpcError (List Str))
      → AreKept records (enforce_supplied clock save records authorities expected supplied)
  supplied-AreKept authorities expected (err e) = answer-AreKept (err e)
  supplied-AreKept authorities expected (ok supplied) =
      elim (Bool-cases (covers expected supplied)) [
        | inl covered ↦ rw covered (
            returned-AreKept records (enforce_fences clock save records authorities)
              (enforce_fences-Rises clock save records authorities))
        | inr other ↦ rw other (answer-AreKept (err mismatch))
      ]

  expected-AreKept :
      (authorities : Values) (expected : Option (Result RpcError (List Str)))
      → AreKept records (enforce_expected clock save records authorities expected)
  expected-AreKept authorities none = none-AreKept records
  expected-AreKept authorities (some (err e)) = answer-AreKept (err e)
  expected-AreKept authorities (some (ok expected)) =
      supplied-AreKept authorities expected (supplied_resources authorities)

  given-AreKept :
      (canonical : Str) (expected : Option (Result RpcError (List Str))) (given : Option Values)
      → AreKept records (enforce_given clock save records canonical expected given)
  given-AreKept canonical expected none = λ key. omega arith
  given-AreKept canonical expected (some nil) = λ key. omega arith
  given-AreKept canonical expected (some (cons a rest)) = expected-AreKept (cons a rest) expected

  lease-AreKept :
      (canonical : Str) (params : Value)
      → AreKept records (enforce_lease clock save records canonical params)
  lease-AreKept canonical params = elim (Bool-cases (is_free_name canonical)) [
    | inl free ↦ rw free (answer-AreKept (ok tt))
    | inr bound ↦
        elim (Bool-cases (needs_grant (array_of (get params (bytes "_resourceLeases"))))) [
          | inl lacks ↦ rw bound (rw lacks (λ key. omega arith))
          | inr has ↦ rw bound (rw has (answer-AreKept (ok tt)))
        ]
  ]

  authority-AreKept :
      (render : Str → Option (Result RpcError Str)) (executor_id canonical : Str) (params : Value)
      (locks : List Str) (authority : CapabilityAuthority)
      → AreKept records (
          enforce_contract clock save records render executor_id canonical params
            (some (record { authority = authority; locks = locks })))
  unfolding enforce_contract
  authority-AreKept render executor_id canonical params locks no_authority = answer-AreKept (ok tt)
  authority-AreKept render executor_id canonical params locks (resource_lease resource) =
      lease-AreKept canonical params
  authority-AreKept render executor_id canonical params locks workspace_driver =
      given-AreKept canonical
        (expected_resources render executor_id params
          (record { authority = workspace_driver; locks = locks }))
        (array_of (get params (bytes "_authority")))
  authority-AreKept render executor_id canonical params locks desktop_session =
      given-AreKept canonical
        (expected_resources render executor_id params
          (record { authority = desktop_session; locks = locks }))
        (array_of (get params (bytes "_authority")))

  contract-AreKept :
      (render : Str → Option (Result RpcError Str)) (executor_id canonical : Str) (params : Value)
      (contract : Option Contract)
      → AreKept records
          (enforce_contract clock save records render executor_id canonical params contract)
  unfolding enforce_contract
  contract-AreKept render executor_id canonical params none = answer-AreKept (ok tt)
  contract-AreKept render executor_id canonical params (some contract) =
      authority-AreKept render executor_id canonical params contract.locks contract.authority

-- A call of the executor, with the answers of the clock and of the file.
pub record Call : Type 0 where
  pub action : Str
  pub params : Value
  pub clock : ℕ → ℕ
  pub save : Map FenceRecord → Result RpcError (Unit {0})

module _ (to_string : Value → Str) (rounds : ℕ) (catalog : Str → Option Contract)
    (executor_id : Str) where
  unfoldable pub enforce : Map FenceRecord → Call → Option Enforced
  enforce records c =
      enforce_authority to_string rounds catalog executor_id c.clock c.save records c.action
        c.params

  -- The fences after a history of calls.
  unfoldable pub enforced : List Call → Map FenceRecord → Map FenceRecord
  enforced [] records = records
  enforced (c ∷ cs) records = enforced cs (left records (enforce records c))

  enforce-AreKept : (records : Map FenceRecord) (c : Call) → AreKept records (enforce records c)
  unfolding enforce enforce_authority
  enforce-AreKept records c =
      contract-AreKept c.clock c.save records
        (λ template. render_authority_resource to_string rounds template c.params) executor_id
        (canonical_name c.action) c.params (catalog (canonical_name c.action))

  pub enforced-rises :
      (cs : List Call) (records : Map FenceRecord) (key : Str)
      → fence_at key records ≤ fence_at key (enforced cs records)
  unfolding enforced
  enforced-rises [] records key = omega arith
  enforced-rises (c ∷ cs) records key =
      let now = enforce-AreKept records c key in
      let later = enforced-rises cs (left records (enforce records c)) key in omega arith
