-- ===== src/Task/Final.antt =====
-- States that a task does not leave.
use distributed_workbench.Base.{
  Str, List, ◌≡◌, ℕ, some, false, bytes, Option, ◌⊎◌, ◌++◌, inl, arith, refl, none, Option-cases,
  inr, err,
}
use distributed_workbench.Base.Map.{lookup, map_values, lookup-map_values, lookup-insert}
use distributed_workbench.Base.Map.Without.{lookup-without}
use distributed_workbench.Json.{Value}
use distributed_workbench.Schema.Task.{
  TaskError as TaskFailure, Task, TaskState, succeeded, cancelling, cancelled, cancel_requested,
  queued,
}
use distributed_workbench.Task.{
  TaskTable, retry, retryable, transition, allowed, submit_traced, new_task, push_event, Submission,
  moved, submission_scope, requeued, invalid_transition,
}
use distributed_workbench.Task.Calls.{
  perform, Call, Op, submits, transitions, retries, prunes_before, prunes, recovers,
}
use distributed_workbench.Task.Index.{IsIndexed}
use distributed_workbench.Task.Invariant.{transition_cases, retry_cases}
use distributed_workbench.Task.Limits.{prune_retention-active}
use distributed_workbench.Task.Pruning.{prune_terminal_before, prune_retention, remove_tasks}
use distributed_workbench.Task.Recovery.{is_orphan, recovered_task, recover_orphans}
use distributed_workbench.Task.Retention.{remove_tasks-without}
use distributed_workbench.Task.Submitting.{IsFresh, table_after}

-- A task stays, or it is pruned.
abbrev pub StaysOrGoes : Str → Task → TaskTable → Type 0
StaysOrGoes id t table = (lookup id table.tasks ≡ some t) ⊎ (lookup id table.tasks ≡ none)

-- No move leads out of the state, and `retry` does not start from it.
abbrev pub IsFinal : TaskState → Type 0
IsFinal s = (s ≡ succeeded) ⊎ (s ≡ cancelled)

final_allowed : (s a : TaskState) → IsFinal s → allowed s a ≡ false
unfolding allowed
final_allowed s a f = ground arith

final_retryable : (s : TaskState) → IsFinal s → retryable s ≡ false
final_retryable s f = ground arith

final_orphan : (s : TaskState) → IsFinal s → is_orphan s ≡ false
final_orphan s f = ground arith

remove_tasks-StaysOrGoes :
    (ids : List Str) (table : TaskTable) (id : Str) (t : Task)
    → lookup id table.tasks ≡ some t
    → StaysOrGoes id t (remove_tasks ids table).1
remove_tasks-StaysOrGoes ids table id t found =
    rw (remove_tasks-without ids table, lookup-without) (ground arith)

new_task-id :
    (s : Submission) (now event_now : ℕ) (uuid : Str)
    → (new_task s now event_now uuid).id ≡ bytes "task_" ++ uuid
unfolding new_task push_event
new_task-id s now event_now uuid = refl

submit_traced-keeps :
    (table : TaskTable) (s : Submission) (now event_now : ℕ) (uuid : Str) (id : Str) (t : Task)
    → IsFresh uuid table
    → lookup id table.tasks ≡ some t
    → lookup id (table_after table (submit_traced table s now event_now uuid)).tasks ≡ some t
unfolding submit_traced
submit_traced-keeps table s now event_now uuid id t fresh found =
    elim (Option-cases (lookup (submission_scope s) table.idempotency)) [
      | inl free ↦
          let task = new_task s now event_now uuid in
          rw (free, submit_traced)
            (ground
              (arith, lookup-insert id task.id task table.tasks, new_task-id s now event_now uuid))
      | inr (j, taken) ↦ elim (Option-cases (lookup j table.tasks)) [
        | inl gone ↦ rw (taken, submit_traced) (rw (gone, submit_traced) found)
        | inr (u, there) ↦ rw (taken, submit_traced) (rw (there, submit_traced) found)
      ]
    ]

-- A task that has succeeded or was cancelled is not changed by any call: it stays as it is, with its
-- output and its log, or it is pruned.
pub perform-StaysOrGoes :
    (encoded_len : Task → ℕ) (table : TaskTable) (c : Call) (op : Op) (id : Str) (t : Task)
    → IsFresh c.uuid table
    → IsFinal t.state
    → lookup id table.tasks ≡ some t
    → StaysOrGoes id t (perform encoded_len table c op)
unfolding perform prune_terminal_before prune_retention recover_orphans
perform-StaysOrGoes len table c (submits s) id t fresh f found =
    inl (submit_traced-keeps table s c.now c.event_now c.uuid id t fresh found)
perform-StaysOrGoes len table c (transitions j state output error) id t fresh f found =
    transition_cases (StaysOrGoes id t) table j state output error _ _ (inl found) λ u there may.
      inl (
        ground (
          arith,
          lookup-insert id j (moved u state output error c.now c.event_now) table.tasks,
          final_allowed t.state state f,
        ))
perform-StaysOrGoes len table c (retries j) id t fresh f found =
    retry_cases (StaysOrGoes id t) table j _ _ (inl found) λ u there may. inl (
      ground (
        arith,
        lookup-insert id j (requeued u c.now c.event_now) table.tasks,
        final_retryable t.state f,
      ))
perform-StaysOrGoes len table c (prunes_before cutoff) id t fresh f found =
    remove_tasks-StaysOrGoes _ table id t found
perform-StaysOrGoes len table c (prunes retention_ms max_count max_bytes) id t fresh f found =
    remove_tasks-StaysOrGoes _ table id t found
perform-StaysOrGoes len table c (recovers clock) id t fresh f found = inl (
    ground (arith, lookup-map_values (recovered_task clock) id table.tasks, final_orphan t.state f))

-- A task that was being cancelled when the controller stopped is stuck: the restart leaves it as it
-- is, a new request to cancel it and a retry are refused, and no pruning by retention removes it.
pub cancelling_stuck :
    (encoded_len : Task → ℕ) (table : TaskTable) (clock : Str → ℕ × ℕ) (id : Str) (t : Task)
    (output : Option Value) (error : Option TaskFailure)
    (now event_now retention_ms max_count max_bytes : ℕ)
    → IsIndexed table
    → lookup id table.tasks ≡ some t
    → t.state ≡ cancelling
    → let restarted = (recover_orphans table clock).1 in
      (lookup id restarted.tasks ≡ some t)
      × (transition restarted id cancel_requested output error now event_now
          ≡ err (invalid_transition cancelling cancel_requested))
      × (retry restarted id now event_now ≡ err (invalid_transition cancelling queued))
      × (lookup id (prune_retention encoded_len table now retention_ms max_count max_bytes).1.tasks
          ≡ some t)
unfolding recover_orphans transition retry allowed
cancelling_stuck len table clock id t output error now event_now retention_ms max_count max_bytes v
      found caught =
    let after : TaskTable = record table {
      tasks = map_values (recovered_task clock) table.tasks;
    } in
    let there : lookup id after.tasks ≡ some t =
      ground (arith, lookup-map_values (recovered_task clock) id table.tasks) in
    (
      there,
      rw (there, transition, caught, allowed) refl,
      rw (there, retry, caught) refl,
      prune_retention-active len table now retention_ms max_count max_bytes id t v found
          (ground arith),
    )
