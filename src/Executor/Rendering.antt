-- ===== src/Executor/Rendering.antt =====
-- Which resources `enforce_authority` of crates/workbench-runtime/src/executor.rs asks for.
use distributed_workbench.Base.{
  ℕ, zero, suc, Str, bytes, Bool, true, ◌&&◌, Option, none, some, ◌==◌, if◌then◌else◌, List, [],
  ◌∷◌, ◌++◌, Result, ok, err, ok_or, ◌>>=◌, leb, str_lt,
}
use distributed_workbench.Base.Lists.{length}
use distributed_workbench.Base.Replace.{replace, split_once}
use distributed_workbench.Controller.{one_of}
use distributed_workbench.Controller.Locks.{find_open, lock_text}
use distributed_workbench.Executor.{
  CapabilityAuthority, no_authority, workspace_driver, desktop_session, resource_lease,
  required_str,
}
use distributed_workbench.Json.{Value, Values, nil, cons, get}
use distributed_workbench.Protocol.{RpcError, rpc_error}

-- What `enforce_authority` reads of a capability's contract: its authority and its lock templates.
pub record Contract : Type 0 where
  pub authority : CapabilityAuthority
  pub locks : List Str

-- The first placeholder gives way to its value, up to the errors that the loop of the controller has.
module _ (to_string : Value → Str) (template : Str) (params : Value) where
  abbrev filled : (before : Str) → Str × Str → Result RpcError Str
  filled before (key, behind_it) = do
    value ←
        ok_or (get params key) (
          rpc_error (bytes "EXECUTOR_AUTHORITY_MISMATCH")
            (bytes "capability lock requires " ++ key))
    ok (before ++ (lock_text to_string value ++ behind_it))

  unfoldable pub fill : (before inside : Str) → Result RpcError Str
  fill before inside = do
    parts ← ok_or (split_once b'}' inside) (rpc_error (bytes "INVALID_LOCK_TEMPLATE") template)
    filled before parts

  abbrev next_round :
      (Str → Option (Result RpcError Str)) → Result RpcError Str → Option (Result RpcError Str)
  next_round rest (err e) = some (err e)
  next_round rest (ok next) = rest next

  abbrev round_of :
      (Str → Option (Result RpcError Str))
      → (rendered : Str) → Option (Str × Str)
      → Option (Result RpcError Str)
  round_of rest rendered none = some (ok rendered)
  round_of rest rendered (some (before, inside)) = next_round rest (fill before inside)

  -- The loop, for so many rounds; `none` where it has not ended by then.
  unfoldable pub authority_loop : (rounds : ℕ) → (rendered : Str) → Option (Result RpcError Str)
  authority_loop zero rendered = none
  authority_loop (suc n) rendered =
      round_of (λ next. authority_loop n next) rendered (find_open rendered)

unfoldable pub render_authority_resource :
    (to_string : Value → Str)
    → (rounds : ℕ) → (template : Str) → (params : Value) → Option (Result RpcError Str)
render_authority_resource to_string rounds template params =
    authority_loop to_string template params rounds template

-- The second result of two, and the first error.
abbrev pub joined :
    Option (Result RpcError Str)
    → Option (Result RpcError (List Str))
    → Option (Result RpcError (List Str))
joined none rest = none
joined (some (err e)) rest = some (err e)
joined (some (ok s)) none = none
joined (some (ok s)) (some (err e)) = some (err e)
joined (some (ok s)) (some (ok ss)) = some (ok (s ∷ ss))

-- `sort` and `dedup`.
abbrev place : Str → List Str → List Str
place s [] = s ∷ []
place s (t ∷ ts) = if str_lt s t then s ∷ t ∷ ts else if s == t then t ∷ ts else t ∷ place s ts

unfoldable pub distinct : List Str → List Str
distinct [] = []
distinct (s ∷ ss) = place s (distinct ss)

abbrev distinct_of : Option (Result RpcError (List Str)) → Option (Result RpcError (List Str))
distinct_of none = none
distinct_of (some (err e)) = some (err e)
distinct_of (some (ok ss)) = some (ok (distinct ss))

unfoldable pub canonical_name : Str → Str
canonical_name action =
    if action == bytes "fs.write"
    then bytes "filesystem.write"
    else if action == bytes "fs.patch"
    then bytes "filesystem.patch"
    else if action == bytes "fs.remove"
    then bytes "filesystem.remove"
    else if action == bytes "fs.restore"
    then bytes "filesystem.restore"
    else action

module _ (render : Str → Option (Result RpcError Str)) where
  unfoldable pub render_all : List Str → Option (Result RpcError (List Str))
  render_all [] = some (ok [])
  render_all (t ∷ ts) = joined (render t) (render_all ts)

-- `format!("workspace:{}", …)`
abbrev workspace_of : Result RpcError Str → Option (Result RpcError Str)
workspace_of (err e) = some (err e)
workspace_of (ok s) = some (ok (bytes "workspace:" ++ s))

abbrev first_resource :
    (Str → Option (Result RpcError Str))
    → (executor_id : Str) → Value
    → CapabilityAuthority
    → List (Option (Result RpcError Str))
first_resource render executor_id params no_authority = []
first_resource render executor_id params desktop_session = []
first_resource render executor_id params workspace_driver =
    workspace_of (required_str params (bytes "_workspaceSessionId")) ∷ []
first_resource render executor_id params (resource_lease resource) =
    render (replace (bytes "${executorId}") executor_id resource) ∷ []

abbrev with_first :
    List (Option (Result RpcError Str))
    → Option (Result RpcError (List Str))
    → Option (Result RpcError (List Str))
with_first [] rest = rest
with_first (r ∷ rs) rest = joined r rest

-- The resources that the supplied authorities have to name.
unfoldable pub expected_resources :
    (render : Str → Option (Result RpcError Str))
    → (executor_id : Str) → (params : Value) → Contract
    → Option (Result RpcError (List Str))
expected_resources render executor_id params contract = distinct_of (
    with_first (first_resource render executor_id params contract.authority)
      (render_all render contract.locks))

unfoldable pub supplied_resources : Values → Result RpcError (List Str)
supplied_resources nil = ok []
supplied_resources (cons authority rest) = do
  resource ← required_str authority (bytes "resource")
  others ← supplied_resources rest
  ok (resource ∷ others)

abbrev all_supplied : List Str → List Str → Bool
all_supplied [] supplied = true
all_supplied (e ∷ es) supplied = one_of supplied e && all_supplied es supplied

unfoldable pub covers : (expected supplied : List Str) → Bool
covers expected supplied =
    leb (length expected) (length supplied)
    && (leb (length supplied) (length expected) && all_supplied expected supplied)
