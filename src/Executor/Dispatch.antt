-- ===== src/Executor/Dispatch.antt =====
-- `resource_dispatch` of crates/workbench-runtime/src/executor.rs: an operation runs while it holds the
-- permit of its resources, after its authority has been enforced.
use distributed_workbench.Base.{
  ℕ, Str, bytes, Bool, true, false, Option, none, some, ◌==◌, List, [], ◌∷◌, ◌++◌, Result, ok, err,
  ◌>>=◌,
}
use distributed_workbench.Base.Map.{Map}
use distributed_workbench.Base.Replace.{replace}
use distributed_workbench.Controller.{command_resources}
use distributed_workbench.Executor.{
  CapabilityAuthority, no_authority, workspace_driver, desktop_session, resource_lease,
  required_port,
}
use distributed_workbench.Executor.Fences.{FenceRecord, Enforced, array_of, enforce_authority}
use distributed_workbench.Executor.Rendering.{
  Contract, joined, render_authority_resource, canonical_name,
}
use distributed_workbench.Json.{Value, Values, nil, cons, get}
use distributed_workbench.Protocol.{RpcError}
use distributed_workbench.Resources.{Store, decimal}
use distributed_workbench.Resources.Permits.{begin, drop_permit}

module _ (render : Str → Option (Result RpcError Str)) (executor_id : Str) where
  abbrev rendered_for : Str → Option (Result RpcError Str)
  rendered_for template = render (replace (bytes "${executorId}") executor_id template)

  abbrev pub with_authority :
      CapabilityAuthority
      → Option (Result RpcError (List Str))
      → Option (Result RpcError (List Str))
  with_authority no_authority rest = rest
  with_authority workspace_driver rest = rest
  with_authority desktop_session rest = rest
  with_authority (resource_lease resource) rest = joined (rendered_for resource) rest

  unfoldable pub with_locks :
      List Str → Result RpcError (List Str) → Option (Result RpcError (List Str))
  with_locks [] last = some last
  with_locks (t ∷ ts) last = joined (rendered_for t) (with_locks ts last)

-- `resources.extend(…)` and `resources.push(…)`
abbrev pub extended : Bool → Result RpcError (List Str) → Result RpcError (List Str)
extended true more = more
extended false more = ok []

abbrev port_resource : Str → Result RpcError ℕ → Result RpcError (List Str)
port_resource executor_id (err e) = err e
port_resource executor_id (ok port) =
    ok ((bytes "port:" ++ (executor_id ++ (bytes ":" ++ decimal 20 port))) ∷ [])

abbrev pub port_of : (executor_id canonical : Str) → Value → Result RpcError (List Str)
port_of executor_id canonical params =
    extended (canonical == bytes "tunnel.ensure")
      (port_resource executor_id (required_port params (bytes "bindPort")))

abbrev pub last_resources : (executor_id canonical : Str) → Value → Result RpcError (List Str)
last_resources executor_id canonical params = do
  named ← extended (canonical == bytes "command.run") (command_resources params)
  port ← port_of executor_id canonical params
  ok (named ++ port)

-- The resources of an operation: of the authority of its capability, of its locks, of a command and
-- of a tunnel.
unfoldable pub operation_resources :
    (render : Str → Option (Result RpcError Str))
    → (executor_id canonical : Str) → (params : Value) → Option Contract
    → Option (Result RpcError (List Str))
operation_resources render executor_id canonical params none =
    some (port_of executor_id canonical params)
operation_resources render executor_id canonical params (some contract) =
    with_authority render executor_id contract.authority
      (with_locks render executor_id contract.locks (last_resources executor_id canonical params))

abbrev items : Values → List Value
items nil = []
items (cons v vs) = v ∷ items vs

abbrev pub grants_of : Option Values → List Value
grants_of none = []
grants_of (some vs) = items vs

-- What a call leaves, whether its operation ran, and its result.
pub record Dispatched : Type 0 where
  pub store : Store
  pub records : Map FenceRecord
  pub ran : Bool
  pub result : Result RpcError Value

-- The answers of the two writes of the resource file; the enforcement and the operation itself.
module _ (sha : Str → Str) (clock : Str → ℕ) (at_begin at_drop : Option Str)
    (enforcing : Map FenceRecord → Option Enforced) (operation : Result RpcError Value) where
  abbrev pub enforced_with : List Str → Store → Option Enforced → Option Dispatched
  enforced_with permit s none = none
  enforced_with permit s (some o) = elim o.result [
    | err e ↦ some (record {
      store = drop_permit sha at_drop permit s;
      records = o.records;
      ran = false;
      result = err e;
    })
    | ok u ↦ some (record {
      store = drop_permit sha at_drop permit s;
      records = o.records;
      ran = true;
      result = operation;
    })
  ]

  abbrev pub refused_with : Store → Map FenceRecord → RpcError → Option Dispatched
  refused_with s records e =
      some (record { store = s; records = records; ran = false; result = err e })

  abbrev pub begun : Map FenceRecord → Result RpcError (List Str) × Store → Option Dispatched
  begun records (err e, s) = refused_with s records e
  begun records (ok permit, s) = enforced_with permit s (enforcing records)

  unfoldable pub resource_dispatch :
      Store
      → Map FenceRecord
      → (params : Value) → Option (Result RpcError (List Str))
      → Option Dispatched
  resource_dispatch s records params none = none
  resource_dispatch s records params (some (err e)) = refused_with s records e
  resource_dispatch s records params (some (ok resources)) = begun records (
      begin sha s clock at_begin resources
        (grants_of (array_of (get params (bytes "_resourceLeases")))))

-- An action that `resource_dispatch` handles and that is no command on leases. `desktop_dispatch` hands
-- it every action but those of the desktop and `computer-use.call`, which runs without resources or an
-- authority. The catalog and the operation itself are arguments.
unfoldable pub run_action :
    (sha : Str → Str)
    → (clock : Str → ℕ) → (at_begin at_drop : Option Str) → (to_string : Value → Str) → (rounds : ℕ)
    → (catalog : Str → Option Contract) → (executor_id : Str) → (readings : ℕ → ℕ)
    → (save : Map FenceRecord → Result RpcError (Unit {0})) → (operation : Result RpcError Value)
    → Store
    → Map FenceRecord
    → (action : Str) → (params : Value) → Option Dispatched
run_action sha clock at_begin at_drop to_string rounds catalog executor_id readings save operation s
      records action params =
    resource_dispatch sha clock at_begin at_drop
      (λ now.
        enforce_authority to_string rounds catalog executor_id readings save now action params)
      operation s records params
      (operation_resources (λ template. render_authority_resource to_string rounds template params)
        executor_id (canonical_name action) params (catalog (canonical_name action)))
