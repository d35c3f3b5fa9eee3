-- ===== src/Desktop/Commands.antt =====
-- `DesktopQueue::command` of crates/workbench-runtime/src/desktop.rs: the calls of a session, the
-- recovery, and the choice of the branch.
use distributed_workbench.Base.{
  Str, bytes, Option, some, Bool, true, false, not, ◌&&◌, ◌||◌, Result, ok, err, guard, ok_or, ◌>>◌,
  ◌>>=◌, if◌then◌else◌, leb, ◌==◌, saturating_add,
}
use distributed_workbench.Desktop.{
  Job, DesktopQueue, Desktop, text_field, holds, find_job, with_state, update, save, and_then,
}
use distributed_workbench.Desktop.Submission.{
  Env, job_value, list_jobs, save_and_promote, maintenance, submit, bool_of,
}
use distributed_workbench.Json.{Value, boolean, object, end, field, get}
use distributed_workbench.Protocol.{RpcError, rpc_error}

abbrev pub known_as : (token owner : Str) → Job → Bool
known_as token owner j = j.token == token && j.owner == owner

abbrev pub stopped : Job → Job
stopped j =
    if j.state == bytes "queued"
    then with_state (bytes "cancelled") j
    else if j.state == bytes "active"
    then with_state (bytes "draining") j
    else j

-- The test of `desktop.renew`.
abbrev pub may_change : Env → (action : Str) → (blocked : Bool) → Job → Result RpcError (Unit {0})
may_change env action blocked j =
    if action == bytes "desktop.renew"
    then guard (not (not (j.state == bytes "active") || (leb j.expires_at env.checked || blocked)))
        (rpc_error (bytes "DESKTOP_SESSION_INACTIVE")
          (bytes "only a live active session can renew"))
    else ok tt

-- What `desktop.get`, `renew`, `finish` and `cancel` make of the session's job.
unfoldable pub changed : Env → (action : Str) → Job → Job
changed env action j =
    if action == bytes "desktop.renew"
    then record j { expires_at = saturating_add env.now j.ttl_ms }
    else if action == bytes "desktop.finish" || action == bytes "desktop.cancel"
    then stopped j
    else j

-- The credentials, and the job that they name.
unfoldable pub find_session :
    Env → (action : Str) → Value → DesktopQueue → Result RpcError (Str × Str × Job)
find_session env action params q = do
  token ← text_field params (bytes "token")
  owner ← text_field params (bytes "owner")
  j ←
      ok_or (find_job (known_as token owner) q.jobs)
        (rpc_error (bytes "DESKTOP_SESSION_INVALID") (bytes "unknown session credentials"))
  may_change env action q.blocked j
  ok (token, owner, j)

unfoldable pub session : Env → (action : Str) → Value → Desktop → Result RpcError Value × Desktop
session env action params d = elim (find_session env action params d.queue) [
  | err e ↦ (err e, d)
  | ok (token, owner, j) ↦
      and_then (save env.io (update (known_as token owner) (changed env action) d.queue) d)
        (λ d'. (ok (job_value (changed env action j)), d'))
]

abbrev is_true : Option Bool → Bool
is_true (some true) = true
is_true _ = false

abbrev pub not_recoverable : Value → DesktopQueue → Bool
not_recoverable params q =
    not q.blocked
    || (q.in_flight || not (is_true (bool_of (get params (bytes "confirmDesktopReset")))))

-- `desktop.recover`
unfoldable pub recover : Env → Value → Desktop → Result RpcError Value × Desktop
recover env params d =
    if not_recoverable params d.queue
    then (
      err (
          rpc_error (bytes "DESKTOP_RECOVERY_REQUIRED")
            (bytes "reset native helpers/desktop first, then confirmDesktopReset")),
      d,
    )
    else save_and_promote env
        (record (update holds (with_state (bytes "interrupted")) d.queue) { blocked = false }) d
        (λ d'. object (field (bytes "recovered") (boolean true) end))

abbrev pub of_session : Str → Bool
of_session action =
    action == bytes "desktop.get"
    || (action == bytes "desktop.renew"
        || (action == bytes "desktop.finish" || action == bytes "desktop.cancel"))

-- The branches behind `desktop.list`.
unfoldable pub session_command :
    Env → (action : Str) → Value → Desktop → Result RpcError Value × Desktop
session_command env action params d =
    if of_session action
    then session env action params d
    else if action == bytes "desktop.recover"
    then recover env params d
    else (err (rpc_error (bytes "UNKNOWN_ACTION") action), d)

unfoldable pub command : Env → (action : Str) → Value → Desktop → Result RpcError Value × Desktop
command env action params d =
    if action == bytes "desktop.maintenance"
    then maintenance env params d
    else if action == bytes "desktop.submit"
    then submit env params d
    else if action == bytes "desktop.list"
    then (ok (list_jobs d.queue), d)
    else session_command env action params d
