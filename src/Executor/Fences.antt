-- ===== src/Executor/Fences.antt =====
-- `enforce_authority` of crates/workbench-runtime/src/executor.rs.
use distributed_workbench.Base.{
  ℕ, suc, Str, bytes, Bool, true, false, not, ◌&&◌, ◌||◌, Option, none, some, ◌==◌, if◌then◌else◌,
  List, [], ◌++◌, Result, ok, err, ok_or, guard, ◌>>◌, ◌>>=◌, starts_with, leb, ltb,
}
use distributed_workbench.Base.Map.{Map, lookup, insert}
use distributed_workbench.Executor.{
  no_authority, workspace_driver, desktop_session, resource_lease, required_str,
}
use distributed_workbench.Executor.Rendering.{
  Contract, render_authority_resource, expected_resources, supplied_resources, covers,
  canonical_name,
}
use distributed_workbench.Json.{Value, Values, nil, cons, get, as_u64}
use distributed_workbench.Json.Objects.{as_array}
use distributed_workbench.Protocol.{RpcError, rpc_error}
use distributed_workbench.Resources.{decimal}

pub record FenceRecord : Type 0 where
  pub controller_id : Str
  pub fence : ℕ

abbrev pub is_workspace : Str → Bool
is_workspace resource = starts_with resource (bytes "workspace:")

abbrev pub key_of : (controller_id resource : Str) → Str
key_of controller_id resource = controller_id ++ (bytes "/" ++ resource)

abbrev pub u64_of : Option Value → Option ℕ
u64_of none = none
u64_of (some v) = as_u64 v

abbrev pub is_over : Option ℕ → (now : ℕ) → Bool
is_over none now = false
is_over (some expiry) now = leb expiry now

abbrev pub is_zero : ℕ → Bool
is_zero n = leb n 0

abbrev pub is_stale : Option FenceRecord → (controller_id : Str) → (fence : ℕ) → Bool
is_stale none controller_id fence = false
is_stale (some current) controller_id fence =
    ltb fence current.fence
    || (leb fence current.fence && not (controller_id == current.controller_id))

abbrev pub stale_of : Str → Option FenceRecord → RpcError
stale_of key none = rpc_error (bytes "STALE_EXECUTOR_FENCE") []
stale_of key (some current) = rpc_error (bytes "STALE_EXECUTOR_FENCE") (
    bytes "resource "
    ++ (key
        ++ (bytes " is fenced at "
            ++ (decimal 20 current.fence ++ (bytes " by " ++ current.controller_id)))))

module _ (records : Map FenceRecord) where
  -- The tests of an authority over a workspace.
  unfoldable pub check_workspace :
      (authority : Value) → (now : ℕ) → (controller_id key : Str) → Result RpcError (Unit {0})
  check_workspace authority now controller_id key = do
    _ ←
        guard (not (is_over (u64_of (get authority (bytes "expiresAt"))) now))
          (rpc_error (bytes "DRIVER_LEASE_EXPIRED") (bytes "driver expired before execution"))
    fence ←
        ok_or (u64_of (get authority (bytes "fence")))
          (rpc_error (bytes "INVALID_AUTHORITY") (bytes "fence is required"))
    _ ←
        guard (not (is_zero fence))
          (rpc_error (bytes "INVALID_AUTHORITY") (bytes "fence must be positive"))
    guard (not (is_stale (lookup key records) controller_id fence))
        (stale_of key (lookup key records))

  unfoldable pub check_one : (authority : Value) → (now : ℕ) → Result RpcError (Unit {0})
  check_one authority now = do
    controller_id ← required_str authority (bytes "controllerId")
    resource ← required_str authority (bytes "resource")
    if is_workspace resource
        then check_workspace authority now controller_id (key_of controller_id resource)
        else ok tt

  -- The n-th reading of the clock belongs to the n-th authority.
  unfoldable pub check_all : (clock : ℕ → ℕ) → (n : ℕ) → Values → Result RpcError (Unit {0})
  check_all clock n nil = ok tt
  check_all clock n (cons authority rest) =
      check_one authority (clock n) >> check_all clock (suc n) rest

-- What a call leaves: the fences, and its result.
pub record Enforced : Type 0 where
  pub records : Map FenceRecord
  pub result : Result RpcError (Unit {0})

-- The second loop; `none` where `expect` panics.
abbrev pub put_fence :
    (controller_id key : Str) → Option ℕ → Map FenceRecord → Option (Map FenceRecord)
put_fence controller_id key none records = none
put_fence controller_id key (some fence) records =
    some (insert key (record { controller_id = controller_id; fence = fence }) records)

abbrev pub put_resource :
    Value → (controller_id resource : Str) → Map FenceRecord → Option (Map FenceRecord)
put_resource authority controller_id resource records =
    if is_workspace resource
    then put_fence controller_id (key_of controller_id resource)
        (u64_of (get authority (bytes "fence"))) records
    else some records

abbrev pub and_then :
    Option (Map FenceRecord) → (Map FenceRecord → Option Enforced) → Option Enforced
and_then none rest = none
and_then (some records) rest = rest records

abbrev pub put_named :
    Value
    → Map FenceRecord
    → (Map FenceRecord → Option Enforced)
    → Result RpcError Str
    → Result RpcError Str
    → Option Enforced
put_named authority records rest (err e) resource =
    some (record { records = records; result = err e })
put_named authority records rest (ok c) (err e) =
    some (record { records = records; result = err e })
put_named authority records rest (ok c) (ok r) = and_then (put_resource authority c r records) rest

unfoldable pub record_all : Values → Map FenceRecord → Option Enforced
record_all nil records = some (record { records = records; result = ok tt })
record_all (cons authority rest) records =
    put_named authority records (λ after. record_all rest after)
      (required_str authority (bytes "controllerId")) (required_str authority (bytes "resource"))

-- `persist_fences`, whose answer is an argument; what is in memory stays.
abbrev pub persisted :
    (save : Map FenceRecord → Result RpcError (Unit {0})) → Option Enforced → Option Enforced
persisted save none = none
persisted save (some o) = elim o.result [
  | err e ↦ some o
  | ok u ↦ some (record { records = o.records; result = save o.records })
]

-- What the tests that come before the fences say: pass, fail, or go on.
abbrev pub needs_grant : Option Values → Bool
needs_grant (some (cons g gs)) = false
needs_grant _ = true

abbrev pub array_of : Option Value → Option Values
array_of none = none
array_of (some v) = as_array v

abbrev pub is_free_name : Str → Bool
is_free_name name = starts_with name (bytes "tunnel.") || starts_with name (bytes "artifact.relay.")

abbrev pub mismatch : RpcError
mismatch =
    rpc_error (bytes "EXECUTOR_AUTHORITY_MISMATCH")
      (bytes "authority resources do not match capability locks")

abbrev pub lacking : Str → RpcError
lacking text = rpc_error (bytes "EXECUTOR_AUTHORITY_REQUIRED") text

module _ (clock : ℕ → ℕ) (save : Map FenceRecord → Result RpcError (Unit {0}))
    (records : Map FenceRecord) where
  abbrev pub answer : Result RpcError (Unit {0}) → Option Enforced
  answer result = some (record { records = records; result = result })

  -- From the lock of the table on.
  unfoldable pub enforce_fences : (authorities : Values) → Option Enforced
  enforce_fences authorities = elim (check_all records clock 0 authorities) [
    | err e ↦ answer (err e)
    | ok u ↦ persisted save (record_all authorities records)
  ]

  abbrev pub enforce_supplied :
      (authorities : Values) → List Str → Result RpcError (List Str) → Option Enforced
  enforce_supplied authorities expected (err e) = answer (err e)
  enforce_supplied authorities expected (ok supplied) =
      if covers expected supplied then enforce_fences authorities else answer (err mismatch)

  abbrev pub enforce_expected :
      (authorities : Values) → Option (Result RpcError (List Str)) → Option Enforced
  enforce_expected authorities none = none
  enforce_expected authorities (some (err e)) = answer (err e)
  enforce_expected authorities (some (ok expected)) =
      enforce_supplied authorities expected (supplied_resources authorities)

  abbrev pub enforce_given :
      (canonical : Str) → Option (Result RpcError (List Str)) → Option Values → Option Enforced
  enforce_given canonical expected none = answer (
      err (
        lacking
          (bytes "mutating capability " ++ (canonical ++ bytes " requires fenced authority"))))
  enforce_given canonical expected (some nil) =
      answer (err (lacking (bytes "authority must cover at least one resource")))
  enforce_given canonical expected (some (cons a as_well)) =
      enforce_expected (cons a as_well) expected

  abbrev pub enforce_lease : (canonical : Str) → (params : Value) → Option Enforced
  enforce_lease canonical params =
      if is_free_name canonical
      then answer (ok tt)
      else if needs_grant (array_of (get params (bytes "_resourceLeases")))
      then answer (
          err (
            rpc_error (bytes "RESOURCE_LEASE_REQUIRED")
              (bytes "resource operation requires an Executor-issued grant")))
      else answer (ok tt)

  abbrev pub enforce_authorities :
      (render : Str → Option (Result RpcError Str))
      → (executor_id canonical : Str) → (params : Value) → Contract
      → Option Enforced
  enforce_authorities render executor_id canonical params contract =
      enforce_given canonical (expected_resources render executor_id params contract)
        (array_of (get params (bytes "_authority")))

  unfoldable pub enforce_contract :
      (render : Str → Option (Result RpcError Str))
      → (executor_id canonical : Str) → (params : Value) → Option Contract
      → Option Enforced
  enforce_contract render executor_id canonical params none = answer (ok tt)
  enforce_contract render executor_id canonical params (some contract) = elim contract.authority [
    | no_authority ↦ answer (ok tt)
    | resource_lease resource ↦ enforce_lease canonical params
    | workspace_driver ↦ enforce_authorities render executor_id canonical params contract
    | desktop_session ↦ enforce_authorities render executor_id canonical params contract
  ]

-- An executor that keeps a file of fences; the catalog of capabilities is an argument.
unfoldable pub enforce_authority :
    (to_string : Value → Str)
    → (rounds : ℕ) → (catalog : Str → Option Contract) → (executor_id : Str) → (clock : ℕ → ℕ)
    → (save : Map FenceRecord → Result RpcError (Unit {0})) → Map FenceRecord
    → (action : Str) → (params : Value) → Option Enforced
enforce_authority to_string rounds catalog executor_id clock save records action params =
    enforce_contract clock save records
      (λ template. render_authority_resource to_string rounds template params) executor_id
      (canonical_name action) params (catalog (canonical_name action))
