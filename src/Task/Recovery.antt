-- ===== src/Task/Recovery.antt =====
-- `recover_orphans` and `persistence_snapshot` of crates/workbench-core/src/task.rs.
use mathlib.Core.Option
use distributed_workbench.Base.{
  Str, ℕ, List, map, if◌then◌else◌, Bool, true, some, contains, false, bytes,
}
use distributed_workbench.Base.Lists.{filter}
use distributed_workbench.Base.Map.{values, map_values}
use distributed_workbench.Json.{null}
use distributed_workbench.Redaction.{redact_sensitive_value}
use distributed_workbench.Schema.Task.{
  TaskError as TaskFailure, Task, TaskState, outcome_unknown, queued, running,
}
use distributed_workbench.Task.{TaskTable, push_event}

-- `matches!(task.state, TaskState::Queued | TaskState::Running)`
abbrev pub is_orphan : TaskState → Bool
is_orphan queued = true
is_orphan running = true
is_orphan _ = false

-- A task whose outcome the restart has lost; the two readings of the clock for it.
unfoldable pub orphaned : Task → (now event_now : ℕ) → Task
orphaned t now event_now =
    push_event
      (record t {
        state = outcome_unknown;
        error = some (record {
          code = bytes "CONTROLLER_RESTARTED";
          message = bytes "controller restarted before the task outcome was recorded";
          retryable = true;
          details = null;
        });
        updated_at = now;
      })
      (bytes "task.outcome-unknown") null event_now

-- The body of the loop, for a task that the filter lets through or not.
abbrev pub recovered_task : (Str → ℕ × ℕ) → Task → Task
recovered_task clock t = if is_orphan t.state then orphaned t (clock t.id).0 (clock t.id).1 else t

-- `clock` gives the readings that are made for each task.
unfoldable pub recover_orphans : TaskTable → (Str → ℕ × ℕ) → List Task × TaskTable
unfolding orphaned
recover_orphans table clock = (
  map (recovered_task clock) (filter (λ t. is_orphan t.state) (values table.tasks)),
  record table { tasks = map_values (recovered_task clock) table.tasks },
)

unfoldable pub redacted_error : TaskFailure → TaskFailure
redacted_error e = record e {
  message = if contains e.message (bytes "token_") then bytes "<redacted>" else e.message;
  details = redact_sensitive_value e.details;
}

-- The closure that `persistence_snapshot` maps over the tasks.
unfoldable pub hide_secrets : Task → Task
hide_secrets t = record t {
  input = redact_sensitive_value t.input;
  output = Option.map redact_sensitive_value t.output;
  error = Option.map redacted_error t.error;
}

unfoldable pub persistence_snapshot : TaskTable → List Task
persistence_snapshot table = map hide_secrets (values table.tasks)
