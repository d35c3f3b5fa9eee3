-- ===== src/Desktop/Access.antt =====
-- Who may act on the desktop.
use distributed_workbench.Base.{
  ℕ, Str, Option, ◌≡◌, true, ◌⊎◌, some, ok, err, false, bytes, ◌<◌, ap, Result, Bool, ◌∙◌, refl,
  not, inl, guard, arith, Result-cases, ◌>>◌, inr, Option-cases, ◌==◌, ◌||◌, leb, ◌&&◌,
}
use distributed_workbench.Desktop.{
  DesktopQueue, Desktop, Job, find_job, holds, open_queue, reopened, and_then, save,
}
use distributed_workbench.Desktop.Exclusive.{save-queue}
use distributed_workbench.Desktop.Sessions.{begin, presents, session_params, admit}
use distributed_workbench.Json.{Value}
use distributed_workbench.Protocol.{rpc_error, RpcError}

guard-eq-ok :
    {A : Type 0} (b : Bool) (e : RpcError) (next : Result RpcError A) {a : A}
    → (guard b e >> next) ≡ ok a
    → (b ≡ true) × (next ≡ ok a)
guard-eq-ok true e next h = (refl, h)
guard-eq-ok false e next h = cc

admitted :
    (q : DesktopQueue) (now : ℕ) (action : Str) (params params' : Value) (j : Job)
    → find_job holds q.jobs ≡ some j
    → admit q now action params ≡ ok params'
    → (q.blocked ≡ false)
      × (q.in_flight ≡ false)
      × (session_params j now action params ≡ ok params')
unfolding admit
admitted q now action params params' j taken h =
    let (calm, rest) = guard-eq-ok (not q.blocked) _ _ h in
    let (idle, last) = guard-eq-ok (not q.in_flight) _ _ rest in
    (ground (arith, calm), ground (arith, idle), rw taken at last)

session_params-eq-ok :
    (j : Job) (now : ℕ) (action : Str) (params params' : Value)
    → session_params j now action params ≡ ok params'
    → (j.state ≡ bytes "active")
      × (now < j.expires_at)
      × (presents params (bytes "token") j.token ≡ true)
      × (presents params (bytes "owner") j.owner ≡ true)
unfolding session_params
session_params-eq-ok j now action params params' h =
    let (live, rest) =
      guard-eq-ok (not (not (j.state == bytes "active") || leb j.expires_at now)) _ _ h in
    let (named, _) =
      guard-eq-ok
        (presents params (bytes "token") j.token && presents params (bytes "owner") j.owner) _ _
        rest in
    (ground (arith, live), ground (arith, live), ground (arith, named), ground (arith, named))

refused_not_ok :
    {A : Type 0} {e : RpcError} {b : A} {d d' : Desktop}
    → ◌≡◌ {A = Result RpcError A × Desktop} (err e, d) (ok b, d')
    → ⊥
refused_not_ok h = cc

and_then-eq-ok :
    {A : Type 0} (r : Result RpcError (Unit {0}) × Desktop) (a b : A) (d : Desktop)
    → and_then r (λ d'. (ok a, d')) ≡ (ok b, d)
    → (a ≡ b) × (d ≡ r.1)
and_then-eq-ok (ok u, d') a b d h = (cc, cc)
and_then-eq-ok (err e, d') a b d h = absurd (refused_not_ok h)

begin_ok :
    (now : ℕ) (io : Option Str) (action : Str) (params params' : Value) (d d' : Desktop)
    → begin now io action params d ≡ (ok params', d')
    → (admit d.queue now action params ≡ ok params') × (d'.queue.in_flight ≡ true)
unfolding begin
begin_ok now io action params params' d d' h =
    elim (Result-cases (admit d.queue now action params)) [
      | inl (e, refused) ↦ absurd (refused_not_ok (rw (refused, begin) at h))
      | inr (changed, passed) ↦
          let marked = record d.queue { in_flight = true } in
          let (same, left) =
            and_then-eq-ok (save io marked d) changed params' d' (rw (passed, begin) at h) in
          (
            passed ∙ ap ok same,
            ap (λ x. x.queue.in_flight) left ∙ ap (λ x. x.in_flight) (save-queue io marked d),
          )
    ]

-- An action that is let in while a job holds the desktop is the action of that job's session: the
-- job is active and has not run out, and the action presents its token and its owner. No other
-- action is in flight.
pub begin-presents :
    (now : ℕ) (io : Option Str) (action : Str) (params params' : Value) (d d' : Desktop) (j : Job)
    → find_job holds d.queue.jobs ≡ some j
    → begin now io action params d ≡ (ok params', d')
    → (d.queue.blocked ≡ false)
      × (d.queue.in_flight ≡ false)
      × (j.state ≡ bytes "active")
      × (now < j.expires_at)
      × (presents params (bytes "token") j.token ≡ true)
      × (presents params (bytes "owner") j.owner ≡ true)
      × (d'.queue.in_flight ≡ true)
begin-presents now io action params params' d d' j taken h =
    let (passed, marked) = begin_ok now io action params params' d d' h in
    let (calm, idle, session) = admitted d.queue now action params params' j taken passed in
    let (live, early, token, owner) = session_params-eq-ok j now action params params' session in
    (calm, idle, live, early, token, owner, marked)

admit-blocked :
    (q : DesktopQueue) (now : ℕ) (action : Str) (params : Value)
    → q.blocked ≡ true
    → admit q now action params
      ≡ err (
          rpc_error
            (bytes "DESKTOP_RECOVERY_REQUIRED")
            (bytes "desktop outcome is uncertain; explicit reset required"))
unfolding admit
admit-blocked q now action params h = rw h refl

begin-blocked :
    (d : Desktop) (now : ℕ) (io : Option Str) (action : Str) (params : Value)
    → d.queue.blocked ≡ true
    → begin now io action params d ≡ (
      err (
          rpc_error
            (bytes "DESKTOP_RECOVERY_REQUIRED")
            (bytes "desktop outcome is uncertain; explicit reset required")),
      d,
    )
unfolding begin
begin-blocked d now io action params h = rw (admit-blocked d.queue now action params h, begin) refl

open_queue-queue :
    (path : Str) (io : Option Str) (file : Option DesktopQueue)
    → (open_queue path io file).1.queue ≡ reopened path file
unfolding open_queue
open_queue-queue path io file = save-queue io (reopened path file) _

reopened-blocked :
    (path : Str) (q : DesktopQueue)
    → (q.in_flight ≡ true) ⊎ ((j : Job) × (find_job holds q.jobs ≡ some j))
    → (reopened path (some q)).blocked ≡ true
unfolding reopened
reopened-blocked path q (inl flying) = elim (Option-cases (find_job holds q.jobs)) [
  | inl free ↦ rw (free, reopened) (ground (arith, flying))
  | inr (j, taken) ↦ rw (taken, reopened) refl
]
reopened-blocked path q (inr (j, taken)) = rw (taken, reopened) refl

-- A desktop whose stored queue shows an action in flight, or a job that holds the desktop, admits
-- no action after a restart: each is refused with DESKTOP_RECOVERY_REQUIRED.
pub begin-open_queue :
    (path : Str) (q : DesktopQueue) (io io' : Option Str) (now : ℕ) (action : Str) (params : Value)
    → (q.in_flight ≡ true) ⊎ ((j : Job) × (find_job holds q.jobs ≡ some j))
    → let d = (open_queue path io (some q)).1 in
      begin now io' action params d ≡ (
        err (
            rpc_error
              (bytes "DESKTOP_RECOVERY_REQUIRED")
              (bytes "desktop outcome is uncertain; explicit reset required")),
        d,
      )
begin-open_queue path q io io' now action params h =
    let d = (open_queue path io (some q)).1 in
    begin-blocked d now io' action params
      (ap (λ x. x.blocked) (open_queue-queue path io (some q)) ∙ reopened-blocked path q h)
