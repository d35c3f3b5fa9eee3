-- ===== src/Desktop/Sessions.antt =====
-- `DesktopQueue::begin` and `end` of crates/workbench-runtime/src/desktop.rs: one action on the
-- desktop. `begin` gives the parameters that it may have changed.
use distributed_workbench.Base.{
  ℕ, Str, bytes, Option, none, some, Bool, true, false, not, ◌&&◌, ◌||◌, ◌++◌, Result, ok, err,
  guard, ◌>>◌, if◌then◌else◌, leb, ◌==◌, is_some_of, str_lt,
}
use distributed_workbench.Desktop.{Job, DesktopQueue, Desktop, holds, find_job, save, and_then}
use distributed_workbench.Json.{Value, Fields, null, string, object, end, field, get}
use distributed_workbench.Protocol.{RpcError, rpc_error}
use distributed_workbench.Resources.{decimal, text_of}

-- `value[key]`
abbrev index : Option Value → Value
index none = null
index (some v) = v

-- The replacement of a field of an object, or its entry in the order of the keys.
unfoldable pub put_field : Str → Value → Fields → Fields
put_field k v end = field k v end
put_field k v (field j w fs) =
    let rest = put_field k v fs in
    if j == k then field k v fs else if str_lt k j then field k v (field j w fs) else field j w rest

-- `value[key] = item`, on what is an object.
unfoldable pub set_field : Str → Value → Value → Value
set_field k v (object fs) = object (put_field k v fs)
set_field k v _ = object (field k v end)

-- `params["_desktop"][name] == text`
abbrev pub presents : Value → Str → Str → Bool
presents params name text =
    is_some_of (text_of (get (index (get params (bytes "_desktop"))) name)) text

abbrev has : Option Value → Bool
has none = false
has (some v) = true

-- The parameters with which an action of the session `j` goes on.
unfoldable pub session_params : Job → (now : ℕ) → (action : Str) → Value → Result RpcError Value
session_params j now action params = do
  guard (not (not (j.state == bytes "active") || leb j.expires_at now))
      (rpc_error (bytes "DESKTOP_DRAINING") (bytes "previous session is draining"))
  guard (presents params (bytes "token") j.token && presents params (bytes "owner") j.owner)
      (rpc_error (bytes "DESKTOP_BUSY") (bytes "desktop belongs to another acceptance session"))
  ok (
      if action == bytes "computer-use.call"
      then set_field (bytes "sessionId") (string (j.id ++ (bytes ":" ++ decimal 20 j.epoch))) params
      else params)

unfoldable pub legacy_params : Option Str → (action : Str) → Value → Result RpcError Value
legacy_params (some owner) action params =
    err (
      rpc_error (bytes "DESKTOP_MAINTENANCE") (bytes "desktop admission is paused for maintenance"))
legacy_params none action params =
    if action == bytes "computer-use.call" || has (get params (bytes "_desktop"))
    then err (
        rpc_error (bytes "DESKTOP_SESSION_REQUIRED")
          (bytes "submit and await a desktop session first"))
    else ok params

abbrev pub action_params :
    Option Job → Option Str → (now : ℕ) → (action : Str) → Value → Result RpcError Value
action_params (some j) maintenance now action params = session_params j now action params
action_params none maintenance now action params = legacy_params maintenance action params

-- The tests of `begin`, in their order.
unfoldable pub admit : DesktopQueue → (now : ℕ) → (action : Str) → Value → Result RpcError Value
admit q now action params = do
  guard (not q.blocked) (
      rpc_error (bytes "DESKTOP_RECOVERY_REQUIRED")
        (bytes "desktop outcome is uncertain; explicit reset required"))
  guard (not q.in_flight)
      (rpc_error (bytes "DESKTOP_BUSY") (bytes "desktop action is already in flight"))
  action_params (find_job holds q.jobs) q.maintenance_owner now action params

unfoldable pub begin :
    (now : ℕ) (io : Option Str) (action : Str) → Value → Desktop → Result RpcError Value × Desktop
begin now io action params d = elim (admit d.queue now action params) [
  | err e ↦ (err e, d)
  | ok changed ↦ and_then (save io (record d.queue { in_flight = true }) d) (λ d'. (ok changed, d'))
]

unfoldable pub end_action :
    (uncertain : Bool) → Option Str → Desktop → Result RpcError (Unit {0}) × Desktop
end_action uncertain io d =
    save io (record d.queue { in_flight = false; blocked = d.queue.blocked || uncertain }) d
