-- ===== src/Controller/Handoffs.antt =====
-- `refresh_driver_handoff` and `workspace_is_draining` of crates/workbench-runtime/src/controller.rs,
-- and the order check of `lease.acquire`.
use distributed_workbench.Base.{
  ℕ, Str, bytes, Option, none, some, Bool, true, false, not, ◌||◌, ◌&&◌, List, [], ◌∷◌, Result,
  ◌>>◌, guard, map_err, if◌then◌else◌, leb, ltb, ◌==◌, is_some_of,
}
use distributed_workbench.Controller.{lease_order_rank, map_lease_error}
use distributed_workbench.Lease.{LeaseTable, acquire, cancel_handoff}
use distributed_workbench.Lease.Calls.{after}
use distributed_workbench.Protocol.{RpcError, rpc_error}
use distributed_workbench.Schema.Handoff.{
  DriverHandoffState, DriverHandoffRequest, AgentMutationOperation, requested, draining, ready,
  expired,
}
use distributed_workbench.Schema.Lease.{Lease, resource}
use distributed_workbench.Schema.Task.{Task, TaskState, queued, running, cancelling}
use distributed_workbench.Lease

-- `matches!(state, Requested | Draining | Ready)`
abbrev pub is_open : DriverHandoffState → Bool
is_open requested = true
is_open draining = true
is_open ready = true
is_open _ = false

abbrev pub is_ready : DriverHandoffState → Bool
is_ready ready = true
is_ready _ = false

abbrev pub keeps_busy : TaskState → Bool
keeps_busy queued = true
keeps_busy running = true
keeps_busy cancelling = true
keeps_busy _ = false

abbrev drains : (workspace owner : Str) (now : ℕ) → DriverHandoffRequest → Bool
drains workspace owner now r =
    r.workspace_session_id == workspace
    && (is_some_of r.previous_owner owner && (ltb now r.expires_at && is_open r.state))

unfoldable pub workspace_is_draining :
    List DriverHandoffRequest → (workspace owner : Str) (now : ℕ) → Bool
workspace_is_draining [] workspace owner now = false
workspace_is_draining (r ∷ rs) workspace owner now =
    drains workspace owner now r || workspace_is_draining rs workspace owner now

unfoldable pub task_busy : Str → List Task → Bool
task_busy workspace [] = false
task_busy workspace (t ∷ ts) =
    (t.workspace_session_id == workspace && keeps_busy t.state) || task_busy workspace ts

unfoldable pub mutation_busy : Str → List AgentMutationOperation → Bool
mutation_busy workspace [] = false
mutation_busy workspace (o ∷ os) = o.workspace_session_id == workspace || mutation_busy workspace os

abbrev pub has_owner : Option Str → Bool
has_owner none = false
has_owner (some owner) = true

-- What the loop makes of a request of the workspace. The flag is `busy`.
unfoldable pub refreshed : Bool → ℕ → DriverHandoffRequest → DriverHandoffRequest
refreshed busy now r =
    if is_open r.state
    then (if leb r.expires_at now
        then record r { state = expired }
        else if not busy && not (is_ready r.state)
        then record r { state = ready }
        else r)
    else r

-- The lease table after the request, where `clock` is the reading that the withdrawal makes: a request that runs out is withdrawn there.
unfoldable pub withdrawn :
    ℕ → (DriverHandoffRequest → ℕ) → DriverHandoffRequest → LeaseTable → LeaseTable
withdrawn now clock r t =
    if is_open r.state && (leb r.expires_at now && has_owner r.previous_owner)
    then after t (cancel_handoff t r.resource r.requested_by (clock r))
    else t

-- The loop of `refresh_driver_handoff`.
unfoldable pub refresh_requests :
    Bool
    → (workspace : Str) (now : ℕ) (clock : DriverHandoffRequest → ℕ) → List DriverHandoffRequest
    → LeaseTable
    → List DriverHandoffRequest × LeaseTable
refresh_requests busy workspace now clock [] t = ([], t)
refresh_requests busy workspace now clock (r ∷ rs) t =
    let mine = r.workspace_session_id == workspace in
    let t' : LeaseTable = if mine then withdrawn now clock r t else t in
    let r' : DriverHandoffRequest = if mine then refreshed busy now r else r in
    let rest = refresh_requests busy workspace now clock rs t' in (r' ∷ rest.0, rest.1)

unfoldable pub refresh_driver_handoff :
    (workspace : Str) (now : ℕ) (clock : DriverHandoffRequest → ℕ)
    → List Task
    → List AgentMutationOperation
    → List DriverHandoffRequest
    → LeaseTable
    → List DriverHandoffRequest × LeaseTable
refresh_driver_handoff workspace now clock tasks mutations requests t =
    refresh_requests (task_busy workspace tasks || mutation_busy workspace mutations) workspace now
      clock requests t

-- Whether a lease stands in the way of one of a higher rank.
abbrev pub out_of_order : (key owner : Str) → Lease → Bool
out_of_order key owner l =
    l.owner == owner
    && (not (l.resource == key)
        && (ltb 0 (lease_order_rank l.resource)
            && ltb (lease_order_rank l.resource) (lease_order_rank key)))

unfoldable pub any_out_of_order : (key owner : Str) → List Lease → Bool
any_out_of_order key owner [] = false
any_out_of_order key owner (l ∷ ls) = out_of_order key owner l || any_out_of_order key owner ls

-- `lease.acquire`, up to the write of the state. The order is tested on a copy of the table, and the
-- lock is taken again for the grant, when `now_held` may be another table. `dispatch` sends a request
-- that names an executor on to it, and lets only resources `workspace:` of others come here.
unfoldable pub lease_acquire :
    (held now_held : LeaseTable) (key owner : Str) (ttl_ms now : ℕ) (id_uuid token_uuid : Str)
    → Result RpcError (Lease × LeaseTable)
lease_acquire held now_held key owner ttl_ms now id_uuid token_uuid =
    guard (not (any_out_of_order key owner (Lease.snapshot held))) (
      rpc_error (bytes "LEASE_ORDER_VIOLATION") (
        bytes
          "release workspace driver before runtime lease, and runtime lease before acceptance lease"))
    >> map_err map_lease_error (acquire now_held resource key owner ttl_ms now id_uuid token_uuid)
