-- ===== src/Desktop/Exclusive/History.antt =====
-- A history of the desktop: the calls that the executor makes, in the order of its mutex.
use distributed_workbench.Base.{
  ◌≤◌, ℕ, Option, List, Bool, [], ◌∷◌, true, false, Str, bytes, arith, Option-cases, Bool-cases,
  Result-cases, inl, inr, ◌||◌, leb, if◌then◌else◌,
}
use distributed_workbench.Desktop.{
  Desktop, DesktopQueue, holds, find_job, at_first, with_state, update, save, promote,
  needs_cleanup, cleanup_done, finished,
}
use distributed_workbench.Desktop.Commands.{command}
use distributed_workbench.Desktop.Exclusive.{
  holding, IsExclusive, holding-at_first, save-IsExclusive, promote-IsExclusive,
  and_then-IsExclusive,
}
use distributed_workbench.Desktop.Exclusive.Branches.{command-IsExclusive}
use distributed_workbench.Desktop.Sessions.{admit, begin, end_action}
use distributed_workbench.Desktop.Submission.{Env}
use distributed_workbench.Json.{Value}

pub data Action : Type 0 where
  commands : Env → (action : Str) (params : Value) → Action
  begins : (now : ℕ) (io : Option Str) (action : Str) (params : Value) → Action
  ends : (uncertain : Bool) (io : Option Str) → Action
  looks : (now : ℕ) → Action
  cleans : (success : Bool) (now promoted : ℕ) (io promote_io : Option Str) → Action
  promotes : (now : ℕ) (io : Option Str) → Action

-- `looks` is a call of `needs_cleanup`.
unfoldable pub act : Desktop → Action → Desktop
act d (commands env action params) = (command env action params d).1
act d (begins now io action params) = (begin now io action params d).1
act d (ends uncertain io) = (end_action uncertain io d).1
act d (looks now) = record d { queue = (needs_cleanup now d.queue).1 }
act d (cleans success now promoted io promote_io) =
    (cleanup_done success now promoted io promote_io d).1
act d (promotes now io) = (promote now io d).1

unfoldable pub run_actions : Desktop → List Action → Desktop
run_actions d [] = d
run_actions d (a ∷ rest) = run_actions (act d a) rest

begin-IsExclusive :
    (now : ℕ) (io : Option Str) (action : Str) (params : Value) (d : Desktop)
    → IsExclusive d.queue
    → IsExclusive (begin now io action params d).1.queue
unfolding begin
begin-IsExclusive now io action params d h = elim (Result-cases (admit d.queue now action params)) [
  | inl (e, refused) ↦ rw (refused, begin) h
  | inr (changed, passed) ↦
      rw (passed, begin)
        (and_then-IsExclusive (save io (record d.queue { in_flight = true }) d) _
          (save-IsExclusive io _ d h) λ d' h'. h')
]

draining-le :
    (q : DesktopQueue)
    → holding (at_first holds (with_state (bytes "draining")) q.jobs) ≤ holding q.jobs
draining-le q = holding-at_first holds (with_state (bytes "draining")) q.jobs λ j p _. p

needs_cleanup-IsExclusive :
    (now : ℕ) (q : DesktopQueue) → IsExclusive q → IsExclusive (needs_cleanup now q).1
unfolding needs_cleanup
needs_cleanup-IsExclusive now q h = elim (Bool-cases (q.blocked || q.in_flight)) [
  | inl busy ↦ rw (busy, needs_cleanup) h
  | inr idle ↦ elim (Option-cases (find_job holds q.jobs)) [
    | inl free ↦ rw (idle, needs_cleanup) (rw (free, needs_cleanup) h)
    | inr (j, taken) ↦ elim (Bool-cases (leb j.expires_at now)) [
      | inl over ↦
          rw (idle, needs_cleanup)
            (rw (taken, needs_cleanup) (rw (over, needs_cleanup) (omega (arith, draining-le q))))
      | inr good ↦ rw (idle, needs_cleanup) (rw (taken, needs_cleanup) (rw (good, needs_cleanup) h))
    ]
  ]
]

cleaned-IsExclusive :
    (success : Bool) (now : ℕ) (q : DesktopQueue)
    → IsExclusive q
    → IsExclusive (if success then update holds (finished now) q else record q { blocked = true })
cleaned-IsExclusive true now q h =
    omega (arith, holding-at_first holds (finished now) q.jobs λ j p _. p)
cleaned-IsExclusive false now q h = h

cleanup_done-IsExclusive :
    (success : Bool) (now promoted : ℕ) (io promote_io : Option Str) (d : Desktop)
    → IsExclusive d.queue
    → IsExclusive (cleanup_done success now promoted io promote_io d).1.queue
unfolding cleanup_done
cleanup_done-IsExclusive success now promoted io promote_io d h =
    and_then-IsExclusive (save io _ d) _
      (save-IsExclusive io _ d (cleaned-IsExclusive success now d.queue h))
      (promote-IsExclusive promoted promote_io)

act-IsExclusive : (d : Desktop) (a : Action) → IsExclusive d.queue → IsExclusive (act d a).queue
unfolding act end_action
act-IsExclusive d (commands env action params) h = command-IsExclusive env action params d h
act-IsExclusive d (begins now io action params) h = begin-IsExclusive now io action params d h
act-IsExclusive d (ends uncertain io) h = save-IsExclusive io _ d h
act-IsExclusive d (looks now) h = needs_cleanup-IsExclusive now d.queue h
act-IsExclusive d (cleans success now promoted io promote_io) h =
    cleanup_done-IsExclusive success now promoted io promote_io d h
act-IsExclusive d (promotes now io) h = promote-IsExclusive now io d h

-- Through any history of commands, actions, cleanups and failing writes, at most one job of the
-- queue is active or draining, if that is so at the start.
pub run_actions-IsExclusive :
    (d : Desktop) (actions : List Action)
    → IsExclusive d.queue
    → IsExclusive (run_actions d actions).queue
unfolding run_actions
run_actions-IsExclusive d [] h = h
run_actions-IsExclusive d (a ∷ rest) h =
    run_actions-IsExclusive (act d a) rest (act-IsExclusive d a h)
