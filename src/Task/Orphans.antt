-- ===== src/Task/Orphans.antt =====
-- What a restart of the controller does to the tasks that it finds.
use distributed_workbench.Base.{Str, ℕ, ◌≡◌, some, false, true, refl, arith, ok}
use distributed_workbench.Base.Map.{lookup, map_values, lookup-map_values, lookup-insert_self}
use distributed_workbench.Schema.Task.{Task, queued, outcome_unknown}
use distributed_workbench.Task.{TaskTable, retry, requeued, retryable, push_event, put}
use distributed_workbench.Task.Recovery.{is_orphan, orphaned, recovered_task, recover_orphans}

recovered_state :
    (clock : Str → ℕ × ℕ) (t : Task) → is_orphan (recovered_task clock t).state ≡ false
unfolding orphaned push_event
recovered_state clock t = ground arith

-- After a restart no task is queued or running, and every task that was neither is as it was.
pub recover_orphans_lem :
    (table : TaskTable) (clock : Str → ℕ × ℕ) (id : Str) (t : Task)
    → lookup id table.tasks ≡ some t
    → (u : Task) × (lookup id (recover_orphans table clock).1.tasks ≡ some u)
      × (is_orphan u.state ≡ false)
      × (is_orphan t.state ≡ false → u ≡ t)
unfolding recover_orphans
recover_orphans_lem table clock id t found = (
  recovered_task clock t,
  ground (arith, lookup-map_values (recovered_task clock) id table.tasks),
  recovered_state clock t,
  λ settled. rw settled refl,
)

retry_found :
    (table : TaskTable) (id : Str) (now event_now : ℕ) (t : Task)
    → lookup id table.tasks ≡ some t
    → retryable t.state ≡ true
    → (retry table id now event_now
        ≡ ok (requeued t now event_now, put table id (requeued t now event_now)))
unfolding retry
retry_found table id now event_now t found may = rw (found, retry) (ground arith)

requeued-state : (t : Task) (now event_now : ℕ) → (requeued t now event_now).state ≡ queued
unfolding requeued push_event
requeued-state t now event_now = refl

orphaned-state : (t : Task) (now event_now : ℕ) → (orphaned t now event_now).state ≡ outcome_unknown
unfolding orphaned push_event
orphaned-state t now event_now = refl

-- A task that was queued or running when the controller stopped can be retried after the restart,
-- and is queued again then.
pub retry-recover_orphans :
    (table : TaskTable) (clock : Str → ℕ × ℕ) (id : Str) (t : Task) (now event_now : ℕ)
    → lookup id table.tasks ≡ some t
    → is_orphan t.state ≡ true
    → (u : Task) × (table' : TaskTable) × (retry (recover_orphans table clock).1 id now event_now
        ≡ ok (u, table'))
      × (u.state ≡ queued)
      × (lookup id table'.tasks ≡ some u)
unfolding recover_orphans
retry-recover_orphans table clock id t now event_now found lost =
    let after : TaskTable = record table {
      tasks = map_values (recovered_task clock) table.tasks;
    } in
    let left : Task = orphaned t (clock t.id).0 (clock t.id).1 in
    let there : lookup id after.tasks ≡ some left =
      ground (arith, lookup-map_values (recovered_task clock) id table.tasks) in
    (
      requeued left now event_now,
      put after id (requeued left now event_now),
      retry_found after id now event_now left there (rw orphaned-state refl),
      requeued-state left now event_now,
      lookup-insert_self id (requeued left now event_now) after.tasks,
    )
