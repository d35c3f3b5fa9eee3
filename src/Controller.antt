-- ===== src/Controller.antt =====
-- Rules of crates/workbench-runtime/src/controller.rs that stand on their own: parameters, allowed
-- actions, the order of leases, fences of an execution, artifacts.
pub mod Accessible
pub mod Draining
pub mod Evidence
pub mod Fences
pub mod Generations
pub mod Handoffs
pub mod Locks
pub mod Names
pub mod Retained
pub mod Schemas
use distributed_workbench.Base.{
  ℕ, ◌*◌, Str, bytes, Option, none, some, Bool, true, false, not, ◌||◌, ◌&&◌, List, [], ◌∷◌, ◌++◌,
  Result, ok, err, ◌>>◌, ◌>>=◌, guard, ok_or, if◌then◌else◌, leb, ◌==◌, starts_with, saturating_add,
  min,
}
use distributed_workbench.Base.Lists.{length}
use distributed_workbench.Json.{Value, Values, null, string, array, nil, cons, get, as_str, as_u64}
use distributed_workbench.Lease.{
  LeaseTable, LeaseError, active, not_found, owned_by_other, invalid_handoff, release,
}
use distributed_workbench.Lease.Calls.{after}
use distributed_workbench.Protocol.{RpcError, rpc_error}
use distributed_workbench.Resources.{string_param, text_of, lease_error_text}
use distributed_workbench.Schema.Artifact.{Artifact, ArtifactLocation, Provenance, file_at}
use distributed_workbench.Schema.Lease.{Lease}

unfoldable pub required_str : Value → Str → Result RpcError Str
unfolding string_param
required_str params key = string_param params key

abbrev invalid_text : Str → RpcError
invalid_text key = rpc_error (bytes "INVALID_PARAMS") (key ++ bytes " must be a string")

abbrev optional_text : Option Value → Str → Result RpcError (Option Str)
optional_text none key = ok none
optional_text (some null) key = ok none
optional_text (some (string s)) key = ok (some s)
optional_text (some _) key = err (invalid_text key)

unfoldable pub optional_str : Value → Str → Result RpcError (Option Str)
optional_str params key = optional_text (get params key) key

abbrev pub one_of : List Str → Str → Bool
one_of [] s = false
one_of (t ∷ ts) s = s == t || one_of ts s

abbrev pub operator_actions : List Str
operator_actions =
    bytes "cancel-task"
    ∷ bytes "stop-process"
    ∷ bytes "retry-task"
    ∷ bytes "restart-process"
    ∷ bytes "driver-acquire"
    ∷ bytes "driver-handoff"
    ∷ bytes "driver-release"
    ∷ bytes "approval-approve"
    ∷ bytes "approval-revoke"
    ∷ []

unfoldable pub required_operator_action : Value → Result RpcError Str
required_operator_action params = do
  action ← required_str params (bytes "action")
  guard (one_of operator_actions action) (
      rpc_error (bytes "OPERATOR_ACTION_NOT_ALLOWED")
        (bytes "operator action is not in the fixed allowlist"))
  ok action

unfoldable pub required_force_action : Value → Result RpcError Str
required_force_action params = do
  action ← required_operator_action params
  guard (one_of (bytes "cancel-task" ∷ bytes "stop-process" ∷ []) action) (
      rpc_error (bytes "OPERATOR_ACTION_NOT_ALLOWED")
        (bytes "only cancel-task and stop-process support force actions"))
  ok action

-- Whether a text has a control character: below 32, 127, or U+0080 to U+009F, two bytes in UTF-8.
unfoldable pub has_control : Str → Bool
has_control [] = false
has_control (c ∷ []) = leb c 31 || (leb 127 c && leb c 127)
has_control (c ∷ d ∷ s) =
    let rest = has_control (d ∷ s) in
    leb c 31 || ((leb 127 c && leb c 127) || ((leb 194 c && (leb c 194 && leb d 159)) || rest))

abbrev invalid_params : Str → RpcError
invalid_params message = rpc_error (bytes "INVALID_PARAMS") message

unfoldable pub command_resource : Value → Result RpcError Str
command_resource value = do
  name ← ok_or (as_str value) (invalid_params (bytes "command resources must be strings"))
  guard (not (leb (length name) 0 || (not (leb (length name) 512) || has_control name)))
      (invalid_params (bytes "command resource is empty, too long, or contains control characters"))
  ok (bytes "command:" ++ name)

unfoldable pub command_names : Values → Result RpcError (List Str)
command_names nil = ok []
command_names (cons v vs) = do
  name ← command_resource v
  names ← command_names vs
  ok (name ∷ names)

abbrev pub count : Values → ℕ
count nil = 0
count (cons v vs) = Prim.Native.Nat.suc (count vs)

abbrev pub resources_of : Option Value → Result RpcError (List Str)
resources_of none = ok []
resources_of (some (array vs)) =
    guard (leb (count vs) 32)
      (invalid_params (bytes "command resources may contain at most 32 entries"))
    >> command_names vs
resources_of (some _) = err (invalid_params (bytes "command resources must be an array"))

unfoldable pub command_resources : Value → Result RpcError (List Str)
command_resources input = resources_of (get input (bytes "resources"))

-- `value.get(first).or_else(|| value.get(second))`
abbrev or_else : Option Value → Option Value → Option Value
or_else none v = v
or_else (some v) w = some v

abbrev artifact_value : (capability : Str) → Value → Option Value
artifact_value capability result =
    if capability == bytes "artifact.build"
    then get result (bytes "artifact")
    else if capability == bytes "artifact.describe" || capability == bytes "artifact.transfer"
    then some result
    else none

abbrev size_of : Option Value → ℕ
size_of none = 0
size_of (some v) = elim (as_u64 v) [ none ↦ 0 | some n ↦ n ]

abbrev text_or : Option Str → Str → Str
text_or none d = d
text_or (some s) d = s

abbrev listed_text : Option Str → List Str
listed_text none = []
listed_text (some s) = s ∷ []

module _ (input : Value) (workspace_session_id executor_id task_id : Str) (now : ℕ) where
  abbrev described : Value → (digest path : Str) → Artifact
  described value digest path = record {
    digest = digest;
    artifact_type = text_or (text_of (get input (bytes "artifactType"))) (bytes "generic");
    schema = bytes "workbench.dev/artifact/v1";
    size = size_of (get value (bytes "size"));
    locations = file_at executor_id path ∷ [];
    provenance = record {
      workspace_session_id = workspace_session_id;
      task_id = some task_id;
      source_digests = listed_text (text_of (get input (bytes "digest")));
      attributes = [];
    };
    created_at = now;
  }

  abbrev located : Value → Option Str → Option Str → Option Artifact
  located value none path = none
  located value (some digest) none = none
  located value (some digest) (some path) = some (described value digest path)

  abbrev artifact_of : Option Value → Option Artifact
  artifact_of none = none
  artifact_of (some value) =
      located value (text_of (get value (bytes "digest")))
        (text_of (or_else (get value (bytes "path")) (get value (bytes "destination"))))

  unfoldable pub artifact_from_result : (capability : Str) → (result : Value) → Option Artifact
  artifact_from_result capability result = artifact_of (artifact_value capability result)

-- The leases are given back in the opposite order, each at its own reading of the clock; one that is
-- lost already is passed over.
unfoldable pub release_acquired :
    (Str → Str) → LeaseTable → List Lease → (clock : Lease → ℕ) → LeaseTable
release_acquired sha t [] clock = t
release_acquired sha t (l ∷ ls) clock =
    let rest = release_acquired sha t ls clock in
    after rest (release sha rest l.resource l.owner l.token (clock l))

unfoldable pub lease_order_rank : Str → ℕ
lease_order_rank key =
    if starts_with key (bytes "workspace:")
    then 1
    else if starts_with key (bytes "runtime:")
    then 2
    else if starts_with key (bytes "acceptance:") || starts_with key (bytes "computer-use:")
    then 3
    else 0

abbrev lease_code : LeaseError → Str
lease_code (active owner expires_at) = bytes "LEASE_ACTIVE"
lease_code not_found = bytes "LEASE_NOT_FOUND"
lease_code owned_by_other = bytes "LEASE_OWNED_BY_OTHER"
lease_code invalid_handoff = bytes "INVALID_HANDOFF"

unfoldable pub map_lease_error : LeaseError → RpcError
map_lease_error e = rpc_error (lease_code e) (lease_error_text e)

-- `u64::saturating_mul`
unfoldable pub saturating_mul : ℕ → ℕ → ℕ
saturating_mul a b = min (a * b) 18446744073709551615

unfoldable pub executor_execution_fence : (now lease_fence : ℕ) → ℕ
executor_execution_fence now lease_fence =
    saturating_add (saturating_mul now 65536) (min lease_fence 65535)
