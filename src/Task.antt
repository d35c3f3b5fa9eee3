-- ===== src/Task.antt =====
-- crates/workbench-core/src/task.rs: the task table. The clock is an argument for each reading, the
-- random identifier an argument of `submit_traced`, and the length of a task's JSON text is
-- `encoded_len`. `none` from a submission is the panic of an index that names no task.
pub mod Audit
pub mod Calls
pub mod Eviction
pub mod Final
pub mod Index
pub mod Invariant
pub mod Lifecycle
pub mod Limits
pub mod Log
pub mod Orphans
pub mod Pruning
pub mod Recovery
pub mod Retention
pub mod Scope
pub mod Submitting
use distributed_workbench.Base.{
  ℕ, suc, ◌+◌, ◌-◌, Str, bytes, Option, none, some, Bool, true, false, not, ◌&&◌, ◌||◌, List, [],
  ◌∷◌, ◌++◌, map, Result, ok, err, ◌>>=◌, ◌>>◌, guard, ok_or, if◌then◌else◌, ltb, leb, ◌==◌,
  contains, add_u64, add_u32, str_lt,
}
use distributed_workbench.Base.Lists.{length, filter}
use distributed_workbench.Base.Map.{Map, lookup, insert, remove, values}
use distributed_workbench.Json.{Value, null}
use distributed_workbench.Redaction.{redact_sensitive_value}
use distributed_workbench.Schema.Task.{
  Task, TaskState, TaskEvent, terminal, queued, running, cancel_requested, cancelling, succeeded,
  failed, cancelled, failed_to_cancel, timed_out, outcome_unknown, TaskError as TaskFailure,
}

pub data TaskError : Type 0 where
  not_found : TaskError
  invalid_transition : (from to : TaskState) → TaskError

pub record TaskTable : Type 0 where
  pub tasks : Map Task
  pub idempotency : Map Str

abbrev pub default_table : TaskTable
default_table = record { tasks = []; idempotency = [] }

unfoldable pub scoped_idempotency_key :
    (workspace_session_id executor_id capability key : Str) → Str
scoped_idempotency_key workspace_session_id executor_id capability key =
    workspace_session_id ++ (0 ∷ (executor_id ++ (0 ∷ (capability ++ (0 ∷ key)))))

-- The scoped key of a task, as `from_tasks` and the pruning compute it.
abbrev pub scope_of : Task → Str
scope_of t =
    scoped_idempotency_key t.workspace_session_id t.executor_id t.capability t.idempotency_key

unfoldable pub push_event : Task → Str → Value → ℕ → Task
push_event t event_type details now = record t {
  events =
      t.events
      ++ (record {
        sequence = add_u64 (length t.events) 1;
        timestamp = now;
        event_type = event_type;
        details = details;
      }
          ∷ []);
}

-- The loop of `from_tasks`.
unfoldable pub load : List Task → TaskTable → TaskTable
load [] table = table
load (t ∷ ts) table = load ts (record {
  tasks = insert t.id t table.tasks;
  idempotency = insert (scope_of t) t.id table.idempotency;
})

unfoldable pub from_tasks : List Task → TaskTable
from_tasks ts = load ts default_table

-- What a caller submits.
pub record Submission : Type 0 where
  pub workspace_session_id : Str
  pub executor_id : Str
  pub capability : Str
  pub input : Value
  pub idempotency_key : Str
  pub correlation_id : Option Str
  pub request_id : Option Str

abbrev pub submission_scope : Submission → Str
submission_scope s =
    scoped_idempotency_key s.workspace_session_id s.executor_id s.capability s.idempotency_key

unfoldable pub new_task : Submission → (now event_now : ℕ) (uuid : Str) → Task
new_task s now event_now uuid = push_event queued_task (bytes "task.queued") null event_now
  where
    queued_task : Task
    queued_task = record {
      id = bytes "task_" ++ uuid;
      correlation_id = s.correlation_id;
      request_id = s.request_id;
      workspace_session_id = s.workspace_session_id;
      executor_id = s.executor_id;
      capability = s.capability;
      input = s.input;
      output = none;
      error = none;
      idempotency_key = s.idempotency_key;
      state = queued;
      attempt = 0;
      created_at = now;
      updated_at = now;
      events = [];
    }

unfoldable pub submit_traced :
    TaskTable → Submission → (now event_now : ℕ) (uuid : Str) → Option (Task × Bool × TaskTable)
submit_traced table s now event_now uuid = elim (lookup (submission_scope s) table.idempotency) [
  | some id ↦ elim (lookup id table.tasks) [ none ↦ none | some t ↦ some (t, true, table) ]
  | none ↦
      let task = new_task s now event_now uuid in
      some (
        task,
        false,
        record {
          tasks = insert task.id task table.tasks;
          idempotency = insert (submission_scope s) task.id table.idempotency;
        },
      )
]

-- `submit` traces nothing.
unfoldable pub submit :
    TaskTable
    → (workspace_session_id executor_id capability : Str) (input : Value) (idempotency_key : Str)
    → (now event_now : ℕ) (uuid : Str) → Option (Task × Bool × TaskTable)
submit table workspace_session_id executor_id capability input idempotency_key now event_now uuid =
    submit_traced table submission now event_now uuid
  where
    submission : Submission
    submission = record {
      workspace_session_id = workspace_session_id;
      executor_id = executor_id;
      capability = capability;
      input = input;
      idempotency_key = idempotency_key;
      correlation_id = none;
      request_id = none;
    }

-- The pairs that `transition` allows.
unfoldable pub allowed : TaskState → TaskState → Bool
allowed queued running = true
allowed queued cancelled = true
allowed running cancel_requested = true
allowed cancel_requested cancelling = true
allowed cancelling cancelled = true
allowed cancelling failed_to_cancel = true
allowed running succeeded = true
allowed running failed = true
allowed running cancelled = true
allowed running timed_out = true
allowed running outcome_unknown = true
allowed _ _ = false

-- The kebab-case name under which a state is serialized.
unfoldable pub state_name : TaskState → Str
state_name queued = bytes "queued"
state_name running = bytes "running"
state_name cancel_requested = bytes "cancel-requested"
state_name cancelling = bytes "cancelling"
state_name succeeded = bytes "succeeded"
state_name failed = bytes "failed"
state_name cancelled = bytes "cancelled"
state_name failed_to_cancel = bytes "failed-to-cancel"
state_name timed_out = bytes "timed-out"
state_name outcome_unknown = bytes "outcome-unknown"

-- `matches!(state, TaskState::Running)`
abbrev pub starts : TaskState → Bool
starts running = true
starts _ = false

-- A task written back through `get_mut`.
abbrev pub put : TaskTable → Str → Task → TaskTable
put table id t = record table { tasks = insert id t table.tasks }

unfoldable pub moved :
    Task → TaskState → Option Value → Option TaskFailure → (now event_now : ℕ) → Task
moved t state output error now event_now =
    push_event
      (record t {
        attempt = if starts state then add_u32 t.attempt 1 else t.attempt;
        state = state;
        output = output;
        error = error;
        updated_at = now;
      })
      (bytes "task." ++ state_name state) null event_now

unfoldable pub transition :
    TaskTable
    → Str
    → TaskState
    → Option Value
    → Option TaskFailure
    → (now event_now : ℕ) → Result TaskError (Task × TaskTable)
transition table id state output error now event_now = do
  t ← ok_or (lookup id table.tasks) not_found
  guard (allowed t.state state) (invalid_transition t.state state)
  let task = moved t state output error now event_now
  ok (task, put table id task)

-- The states from which `retry` starts again.
abbrev pub retryable : TaskState → Bool
retryable failed = true
retryable timed_out = true
retryable outcome_unknown = true
retryable failed_to_cancel = true
retryable _ = false

unfoldable pub requeued : Task → (now event_now : ℕ) → Task
requeued t now event_now =
    push_event (record t { state = queued; output = none; error = none; updated_at = now })
      (bytes "task.retried") null event_now

unfoldable pub retry : TaskTable → Str → (now event_now : ℕ) → Result TaskError (Task × TaskTable)
retry table id now event_now = do
  t ← ok_or (lookup id table.tasks) not_found
  guard (retryable t.state) (invalid_transition t.state queued)
  let task = requeued t now event_now
  ok (task, put table id task)

unfoldable pub snapshot : TaskTable → List Task
snapshot table = values table.tasks
