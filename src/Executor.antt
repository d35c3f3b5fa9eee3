-- ===== src/Executor.antt =====
-- Rules of crates/workbench-runtime/src/executor.rs that stand on their own: parameters, execution
-- classes, and the authority that a capability needs.
pub mod Capacity
pub mod Dispatch
pub mod Fences
pub mod Finding
pub mod Grants
pub mod Rendering
pub mod Reaching
pub mod Revoked
pub mod Revoking
pub mod Keeping
pub mod Rising
pub mod Stale
pub mod Tunnels
use distributed_workbench.Base.{
  ℕ, Str, bytes, Bool, true, false, not, ◌&&◌, ◌||◌, Option, none, some, ◌==◌, if◌then◌else◌, List,
  [], ◌∷◌, ◌++◌, Result, ok_or, guard, leb, ltb, is_some_of,
}
use distributed_workbench.Base.Lists.{length}
use distributed_workbench.Base.Trim.{is_empty}
use distributed_workbench.Controller.{one_of}
use distributed_workbench.Json.{Value, null, get, as_u64}
use distributed_workbench.Peer.{all_bytes, is_id_byte}
use distributed_workbench.Protocol.{RpcError, rpc_error}
use distributed_workbench.Resources.{text_of}

abbrev pub invalid_params : Str → RpcError
invalid_params text = rpc_error (bytes "INVALID_PARAMS") text

-- `filter(|value| !value.is_empty())`
abbrev given : Option Str → Option Str
given none = none
given (some s) = if is_empty s then none else some s

unfoldable pub required_str : Value → Str → Result RpcError Str
required_str params key =
    ok_or (given (text_of (get params key))) (invalid_params (key ++ bytes " is required"))

abbrev in_range : Option Value → Option ℕ
in_range none = none
in_range (some v) = elim (as_u64 v) [
  | none ↦ none
  | some n ↦ if leb 1 n && leb n 65535 then some n else none
]

unfoldable pub required_port : Value → Str → Result RpcError ℕ
required_port params key =
    ok_or (in_range (get params key)) (invalid_params (key ++ bytes " must be a valid port"))

-- Its bytes are those of a peer's identifier.
unfoldable pub validate_resource_id : Str → Result RpcError (Unit {0})
validate_resource_id value =
    guard (not (is_empty value || (ltb 128 (length value) || not (all_bytes is_id_byte value)))) (
      invalid_params
        (bytes "resource id must contain only letters, digits, dot, dash, or underscore"))

pub data ExecutionClass : Type 0 where
  control probe readonly mutating : ExecutionClass

abbrev control_actions : List Str
control_actions =
    bytes "ping"
    ∷ bytes "status"
    ∷ bytes "capability.list"
    ∷ bytes "process.get"
    ∷ bytes "process.list"
    ∷ bytes "process.events"
    ∷ bytes "tunnel.get"
    ∷ bytes "tunnel.list"
    ∷ []

abbrev readonly_actions : List Str
readonly_actions =
    bytes "filesystem.resolve"
    ∷ bytes "filesystem.stat"
    ∷ bytes "filesystem.read"
    ∷ bytes "filesystem.list"
    ∷ bytes "filesystem.search"
    ∷ bytes "artifact.describe"
    ∷ bytes "artifact.relay.archive.read"
    ∷ bytes "artifact.relay.manifest"
    ∷ bytes "artifact.relay.read"
    ∷ bytes "readiness.wait"
    ∷ bytes "logs.read"
    ∷ bytes "port.check"
    ∷ bytes "application.inspect"
    ∷ bytes "ui.inspect"
    ∷ bytes "ui.evaluate"
    ∷ bytes "ui.native-inspect"
    ∷ bytes "clipboard.read"
    ∷ bytes "clipboard.status"
    ∷ bytes "computer-use.tools"
    ∷ []

unfoldable pub execution_class : (action : Str) → (params : Value) → ExecutionClass
execution_class action params =
    if one_of control_actions action
    then control
    else if one_of readonly_actions action
    then readonly
    else if action == bytes "command.run"
        && is_some_of (text_of (get params (bytes "mode"))) (bytes "readonly")
    then probe
    else mutating

pub data CapabilityAuthority : Type 0 where
  no_authority workspace_driver desktop_session : CapabilityAuthority
  resource_lease : (resource : Str) → CapabilityAuthority

abbrev free_capabilities : List Str
free_capabilities =
    bytes "filesystem.resolve"
    ∷ bytes "filesystem.stat"
    ∷ bytes "filesystem.read"
    ∷ bytes "filesystem.list"
    ∷ bytes "filesystem.search"
    ∷ bytes "artifact.describe"
    ∷ bytes "artifact.relay.archive.create"
    ∷ bytes "artifact.relay.archive.read"
    ∷ bytes "artifact.relay.archive.remove"
    ∷ bytes "artifact.relay.manifest"
    ∷ bytes "artifact.relay.read"
    ∷ bytes "tunnel.get"
    ∷ bytes "tunnel.list"
    ∷ bytes "process.get"
    ∷ bytes "process.list"
    ∷ bytes "process.events"
    ∷ bytes "readiness.wait"
    ∷ bytes "logs.read"
    ∷ bytes "port.check"
    ∷ bytes "application.inspect"
    ∷ bytes "ui.inspect"
    ∷ bytes "ui.evaluate"
    ∷ bytes "ui.capture"
    ∷ bytes "ui.native-inspect"
    ∷ bytes "clipboard.status"
    ∷ bytes "clipboard.read"
    ∷ bytes "computer-use.tools"
    ∷ []

abbrev runtime_capabilities : List Str
runtime_capabilities =
    bytes "application.activate"
    ∷ bytes "application.launch"
    ∷ bytes "application.open-file"
    ∷ bytes "application.stop"
    ∷ bytes "application.runtime.record"
    ∷ []

abbrev relay_capabilities : List Str
relay_capabilities =
    bytes "artifact.relay.archive.prepare"
    ∷ bytes "artifact.relay.archive.write"
    ∷ bytes "artifact.relay.archive.commit"
    ∷ bytes "artifact.relay.prepare"
    ∷ bytes "artifact.relay.write"
    ∷ bytes "artifact.relay.commit"
    ∷ bytes "artifact.relay.local-copy"
    ∷ []

unfoldable pub capability_authority : (name : Str) → CapabilityAuthority
capability_authority name =
    if one_of free_capabilities name
    then no_authority
    else if name == bytes "computer-use.call"
    then desktop_session
    else if name == bytes "clipboard.write"
    then resource_lease (bytes "clipboard:${executorId}")
    else if one_of runtime_capabilities name
    then resource_lease (bytes "runtime:${executorId}")
    else if one_of (bytes "ui.automate" ∷ bytes "ui.input" ∷ []) name
    then resource_lease (bytes "acceptance:${executorId}:${remoteDebuggingPort}")
    else if one_of (bytes "tunnel.ensure" ∷ bytes "tunnel.stop" ∷ []) name
    then resource_lease (bytes "tunnel:${executorId}:${tunnelId}")
    else if one_of relay_capabilities name
    then resource_lease (bytes "artifact-relay:${destination}")
    else workspace_driver

abbrev background_capabilities : List Str
background_capabilities =
    bytes "artifact.build"
    ∷ bytes "artifact.relay"
    ∷ bytes "generation.materialize"
    ∷ bytes "application.launch"
    ∷ bytes "process.start"
    ∷ bytes "command.run"
    ∷ []

pub data ExecutionKind : Type 0 where
  inline background : ExecutionKind

unfoldable pub capability_execution_kind : (name : Str) → (timeout_ms : ℕ) → ExecutionKind
capability_execution_kind name timeout_ms =
    if ltb 30000 timeout_ms || one_of background_capabilities name then background else inline

unfoldable pub capability_priority : (name : Str) → ℕ
capability_priority name = elim (execution_class name null) [
  | control ↦ 0
  | probe ↦ 2
  | readonly ↦ 2
  | mutating ↦
      if one_of (bytes "tunnel.ensure" ∷ bytes "process.start" ∷ bytes "process.stop" ∷ []) name
      then 3
      else 4
]

unfoldable pub capability_concurrency : (name : Str) → Option ℕ
capability_concurrency name =
    if name == bytes "command.run" then some 4 else elim (execution_class name null) [
      | control ↦ none
      | probe ↦ some 4
      | readonly ↦ some 8
      | mutating ↦ some 1
    ]
