-- ===== src/Desktop.antt =====
-- crates/workbench-runtime/src/desktop.rs: the queue of sessions on an executor's desktop. The file
-- that `save` writes is part of the state; each write may fail with the `io` of a call.
pub mod Access
pub mod Commands
pub mod Exclusive
pub mod Order
pub mod Sessions
pub mod Submission
use distributed_workbench.Base.{
  ℕ, Str, bytes, Option, none, some, Bool, true, false, not, ◌&&◌, ◌||◌, List, [], ◌∷◌, ◌++◌,
  Result, ok, err, guard, ok_or, ◌>>◌, if◌then◌else◌, leb, ◌==◌, is_some_of, starts_with, add_u64,
  str_lt, saturating_add,
}
use distributed_workbench.Base.Lists.{length}
use distributed_workbench.Json.{Value, Fields, null, string, object, end, field, get, as_str}
use distributed_workbench.Protocol.{RpcError, rpc_error}
use distributed_workbench.Resources.{decimal, is_empty, text_of}

pub record Job : Type 0 where
  pub id : Str
  pub owner : Str
  pub request_key : Str
  pub token : Str
  pub state : Str
  pub epoch : ℕ
  pub ttl_ms : ℕ
  pub submitted_at : ℕ
  pub expires_at : ℕ

pub record DesktopQueue : Type 0 where
  pub path : Option Str
  pub epoch : ℕ
  pub jobs : List Job
  pub in_flight : Bool
  pub blocked : Bool
  pub maintenance_owner : Option Str

pub record Desktop : Type 0 where
  pub queue : DesktopQueue
  pub file : Option DesktopQueue

abbrev pub default_queue : DesktopQueue
default_queue = record {
  path = none;
  epoch = 0;
  jobs = [];
  in_flight = false;
  blocked = false;
  maintenance_owner = none;
}

abbrev short : Option Str → Option Str
short none = none
short (some s) = if not (is_empty s) && leb (length s) 256 then some s else none

-- The helper `field`.
unfoldable pub text_field : Value → Str → Result RpcError Str
text_field v name =
    ok_or (short (text_of (get v name)))
      (rpc_error (bytes "INVALID_PARAMS") (name ++ bytes " must be 1..256 bytes"))

unfoldable pub protected : Str → Bool
protected action =
    action == bytes "computer-use.call"
    || (action == bytes "computer-use.tools"
        || (starts_with action (bytes "application.")
            || (starts_with action (bytes "ui.") || action == bytes "clipboard.write")))

-- `j.state == "active" || j.state == "draining"`
abbrev pub holds : Job → Bool
holds j = j.state == bytes "active" || j.state == bytes "draining"

abbrev pub is_queued : Job → Bool
is_queued j = j.state == bytes "queued"

-- `iter().find(p)`, and the change of the job that it finds.
unfoldable pub find_job : (Job → Bool) → List Job → Option Job
find_job p [] = none
find_job p (j ∷ js) = if p j then some j else find_job p js

unfoldable pub at_first : (Job → Bool) → (Job → Job) → List Job → List Job
at_first p f [] = []
at_first p f (j ∷ js) = let rest = at_first p f js in if p j then f j ∷ js else j ∷ rest

abbrev pub with_state : Str → Job → Job
with_state state j = record j { state = state }

abbrev pub update : (Job → Bool) → (Job → Job) → DesktopQueue → DesktopQueue
update p f q = record q { jobs = at_first p f q.jobs }

abbrev pub write : (path io : Option Str) → Desktop → Result RpcError (Unit {0}) × Desktop
write none io d = (ok tt, d)
write (some path) none d = (ok tt, record d { file = some d.queue })
write (some path) (some reason) d = (err (rpc_error (bytes "DESKTOP_STATE_FAILED") reason), d)

unfoldable pub save : Option Str → DesktopQueue → Desktop → Result RpcError (Unit {0}) × Desktop
save io q d = write q.path io (record d { queue = q })

-- `?` between two steps on the state.
abbrev pub and_then {ℓ} :
    {A : Type ℓ}
    → Result RpcError (Unit {0}) × Desktop
    → (Desktop → Result RpcError A × Desktop)
    → Result RpcError A × Desktop
and_then (ok _, d) next = next d
and_then (err e, d) next = (err e, d)

-- What `open` makes of the stored queue.
unfoldable pub reopened : (path : Str) → Option DesktopQueue → DesktopQueue
reopened path none = record default_queue { path = some path }
reopened path (some q) = elim (find_job holds q.jobs) [
  | some j ↦ record q { path = some path; blocked = true; in_flight = false }
  | none ↦ record q { path = some path; blocked = q.blocked || q.in_flight; in_flight = false }
]

unfoldable pub open_queue :
    (path : Str) → (io : Option Str) → Option DesktopQueue → Result RpcError (Unit {0}) × Desktop
open_queue path io file =
    let q = reopened path file in save io q (record { queue = q; file = file })

unfoldable pub needs_cleanup : (now : ℕ) → DesktopQueue → Bool × DesktopQueue
needs_cleanup now q =
    if q.blocked || q.in_flight then (false, q) else elim (find_job holds q.jobs) [
      | none ↦ (false, q)
      | some j ↦
          if leb j.expires_at now
          then (true, update holds (with_state (bytes "draining")) q)
          else (j.state == bytes "draining", q)
    ]

abbrev pub is_none : Option Str → Bool
is_none none = true
is_none (some s) = false

abbrev pub no_job : Option Job → Bool
no_job none = true
no_job (some j) = false

abbrev pub started : (epoch now : ℕ) → Job → Job
started epoch now j = record j {
  epoch = epoch;
  state = bytes "active";
  expires_at = saturating_add now j.ttl_ms;
}

-- The conditions of `promote` on the queue.
abbrev pub may_promote : DesktopQueue → Bool
may_promote q =
    is_none q.maintenance_owner
    && (not q.blocked && (not q.in_flight && no_job (find_job holds q.jobs)))

unfoldable pub promote : (now : ℕ) → Option Str → Desktop → Result RpcError (Unit {0}) × Desktop
promote now io d =
    if may_promote d.queue
    then elim (find_job is_queued d.queue.jobs) [
      | none ↦ (ok tt, d)
      | some j ↦
          let epoch = add_u64 d.queue.epoch 1 in
          save io (record (update is_queued (started epoch now) d.queue) { epoch = epoch }) d
    ]
    else (ok tt, d)

abbrev pub finished : (now : ℕ) → Job → Job
finished now j = with_state (if leb j.expires_at now then bytes "expired" else bytes "completed") j

unfoldable pub cleanup_done :
    (success : Bool) (now promoted : ℕ) (io promote_io : Option Str)
    → Desktop
    → Result RpcError (Unit {0}) × Desktop
cleanup_done success now promoted io promote_io d =
    and_then
      (save io
        (if success then update holds (finished now) d.queue else record d.queue { blocked = true })
        d)
      (promote promoted promote_io)
