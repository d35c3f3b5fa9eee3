-- ===== src/Tests/Tasks.antt =====
-- The task table on concrete calls.
use distributed_workbench.Base.{
  ◌≡◌, ◌⊎◌, ◌≤◌, Str, List, [], ◌∷◌, Option, some, none, Bool, true, false, ok, err, bytes, refl, ℕ,
  subst, arith, inl, Str-discrete, ℕ_discrete, add_u64, add_u32, ◌≢◌,
}
use distributed_workbench.Base.Lists.{length}
use distributed_workbench.Base.Map.{lookup, insert, values}
use distributed_workbench.Base.Map.Without.{total}
use distributed_workbench.Json.{null, string}
use distributed_workbench.Schema.Task.{
  Task, TaskEvent, terminal, queued, running, cancel_requested, cancelling, succeeded,
}
use distributed_workbench.Task.{
  TaskTable, default_table, Submission, submission_scope, scoped_idempotency_key, submit_traced,
  new_task, push_event, transition, moved, allowed, retry, put, invalid_transition, state_name,
}
use distributed_workbench.Task.Audit.{AreReady, run-IsLogged}
use distributed_workbench.Task.Calls.{
  Op, Call, perform, run, AreFresh, submits, transitions, retries,
}
use distributed_workbench.Task.Final.{StaysOrGoes, perform-StaysOrGoes, cancelling_stuck}
use distributed_workbench.Task.Index.{IsIndexed, put-IsIndexed}
use distributed_workbench.Task.Invariant.{run-IsIndexed}
use distributed_workbench.Task.Limits.{prune_retention_limits}
use distributed_workbench.Task.Log.{IsLogged}
use distributed_workbench.Task.Orphans.{retry-recover_orphans}
use distributed_workbench.Task.Pruning.{prune_retention}
use distributed_workbench.Task.Recovery.{recover_orphans}
use distributed_workbench.Task.Scope.{HasNoNul}
use distributed_workbench.Task.Submitting.{
  IsFresh, submit_traced-twice, table_after, submit_traced-IsIndexed,
}

abbrev build : Submission
build = record {
  workspace_session_id = bytes "s";
  executor_id = bytes "e";
  capability = bytes "c";
  input = string (bytes "make");
  idempotency_key = bytes "k";
  correlation_id = none;
  request_id = none;
}

-- The same key with another input.
abbrev rebuild : Submission
rebuild = record build { input = string (bytes "make all") }

abbrev queued_task : Task
queued_task = record {
  id = bytes "task_1";
  correlation_id = none;
  request_id = none;
  workspace_session_id = bytes "s";
  executor_id = bytes "e";
  capability = bytes "c";
  input = string (bytes "make");
  output = none;
  error = none;
  idempotency_key = bytes "k";
  state = queued;
  attempt = 0;
  created_at = 10;
  updated_at = 10;
  events =
      record { sequence = 1; timestamp = 11; event_type = bytes "task.queued"; details = null }
      ∷ [];
}

abbrev scope : Str
scope = submission_scope build

abbrev one_task : TaskTable
one_task = record {
  tasks = (bytes "task_1", queued_task) ∷ [];
  idempotency = (scope, bytes "task_1") ∷ [];
}

build_submitted :
    submit_traced default_table build 10 11 (bytes "1") ≡ some (queued_task, false, one_task)
unfolding submit_traced new_task push_event scoped_idempotency_key lookup insert add_u64
build_submitted = refl

abbrev call : Op → ℕ → Str → Call
call op at uuid = record { op = op; now = at; event_now = at; uuid = uuid }

-- The task starts and is done.
abbrev history : List Call
history =
    call (submits build) 10 (bytes "1")
    ∷ call (submits rebuild) 20 (bytes "2")
    ∷ call (transitions (bytes "task_1") running none none) 30 (bytes "3")
    ∷ call (transitions (bytes "task_1") succeeded (some null) none) 40 (bytes "4")
    ∷ []

abbrev event : ℕ → ℕ → Str → TaskEvent
event n at name = record { sequence = n; timestamp = at; event_type = name; details = null }

abbrev running_task : Task
running_task = record queued_task {
  state = running;
  attempt = 1;
  updated_at = 30;
  events = event 1 11 (bytes "task.queued") ∷ event 2 30 (bytes "task.running") ∷ [];
}

abbrev done_task : Task
done_task = record queued_task {
  state = succeeded;
  output = some null;
  attempt = 1;
  updated_at = 40;
  events =
      event 1 10 (bytes "task.queued")
      ∷ event 2 30 (bytes "task.running")
      ∷ event 3 40 (bytes "task.succeeded")
      ∷ [];
}

abbrev size_of : Task → ℕ
size_of t = length t.events

abbrev done_table : TaskTable
done_table = run size_of default_table history

done_found : lookup (bytes "task_1") done_table.tasks ≡ some done_task
unfolding run perform submit_traced new_task push_event scoped_idempotency_key lookup insert add_u64
    add_u32 transition moved allowed state_name Str-discrete ℕ_discrete
done_found = refl

no_entry : {V : Type 0} (k : Str) (v : V) → lookup k [] ≡ some v → ⊥
unfolding lookup
no_entry k v e = cc

default-IsIndexed : IsIndexed default_table
default-IsIndexed = record {
  sorted = tt;
  keyed = tt;
  indexed = λ id t e. absurd (no_entry id t e);
  pointing = λ k id e. absurd (no_entry k id e);
}

default-AreReady : AreReady (length history) default_table
default-AreReady id t e = absurd (no_entry id t e)

history-AreFresh : AreFresh size_of default_table history
unfolding perform submit_traced new_task push_event scoped_idempotency_key lookup insert add_u64
    add_u32 transition moved allowed state_name Str-discrete ℕ_discrete
history-AreFresh = (refl, (refl, (refl, (refl, tt))))

one_task-IsIndexed : IsIndexed one_task
one_task-IsIndexed =
    subst (λ (r : Option (Task × Bool × TaskTable)). IsIndexed (table_after default_table r))
      build_submitted
      (submit_traced-IsIndexed default_table build 10 11 (bytes "1") default-IsIndexed
        (unfold lookup in refl))

one_task_found : lookup (bytes "task_1") one_task.tasks ≡ some queued_task
unfolding lookup Str-discrete ℕ_discrete
one_task_found = refl

-- The table with the task in another state.
abbrev with_task : Task → TaskTable
with_task t = put one_task (bytes "task_1") t

with_task_found : (t : Task) → lookup (bytes "task_1") (with_task t).tasks ≡ some t
unfolding lookup insert Str-discrete ℕ_discrete
with_task_found t = refl

running_table-IsIndexed : IsIndexed (with_task running_task)
running_table-IsIndexed =
    put-IsIndexed one_task (bytes "task_1") queued_task running_task one_task-IsIndexed
      one_task_found refl refl

submit_traced-twice_example :
    submit_traced one_task rebuild 20 21 (bytes "2") ≡ some (queued_task, true, one_task)
submit_traced-twice_example =
    submit_traced-twice default_table one_task build rebuild 10 11 (bytes "1") 20 21 (bytes "2")
      queued_task false default-IsIndexed refl build_submitted

run-IsLogged_example : IsLogged done_task
run-IsLogged_example =
    run-IsLogged size_of default_table history (bytes "task_1") done_task (omega arith)
      history-AreFresh default-IsIndexed default-AreReady done_found

run-IsIndexed_example : IsIndexed done_table
run-IsIndexed_example =
    run-IsIndexed size_of default_table history history-AreFresh default-IsIndexed

done_table-IsFresh : IsFresh (bytes "9") done_table
unfolding run perform submit_traced new_task push_event scoped_idempotency_key lookup insert add_u64
    add_u32 transition moved allowed state_name Str-discrete ℕ_discrete
done_table-IsFresh = refl

perform-StaysOrGoes_example : StaysOrGoes (bytes "task_1") done_task (
    perform size_of done_table
      (call (retries (bytes "task_1")) 50 (bytes "9"))
      (retries (bytes "task_1")))
perform-StaysOrGoes_example =
    perform-StaysOrGoes size_of done_table (call (retries (bytes "task_1")) 50 (bytes "9"))
      (retries (bytes "task_1")) (bytes "task_1") done_task done_table-IsFresh (inl refl) done_found

abbrev caught_task : Task
caught_task = record running_task { state = cancelling }

caught_table-IsIndexed : IsIndexed (with_task caught_task)
caught_table-IsIndexed =
    put-IsIndexed one_task (bytes "task_1") queued_task caught_task one_task-IsIndexed
      one_task_found refl refl

abbrev clock : Str → ℕ × ℕ
clock id = (70, 71)

cancelling_stuck_example :
    let restarted = (recover_orphans (with_task caught_task) clock).1 in
    (lookup (bytes "task_1") restarted.tasks ≡ some caught_task)
    × (transition restarted (bytes "task_1") cancel_requested none none 80 80
        ≡ err (invalid_transition cancelling cancel_requested))
    × (retry restarted (bytes "task_1") 80 80 ≡ err (invalid_transition cancelling queued))
    × (lookup (bytes "task_1") (prune_retention size_of (with_task caught_task) 80 10 0 0).1.tasks
        ≡ some caught_task)
cancelling_stuck_example =
    cancelling_stuck size_of (with_task caught_task) clock (bytes "task_1") caught_task none none 80
      80 10 0 0 caught_table-IsIndexed (with_task_found caught_task) refl

retry-recover_orphans_example :
    (u : Task) × (table' : TaskTable) × (retry
        (recover_orphans (with_task running_task) clock).1
        (bytes "task_1")
        80
        80
      ≡ ok (u, table'))
    × (u.state ≡ queued)
    × (lookup (bytes "task_1") table'.tasks ≡ some u)
retry-recover_orphans_example =
    retry-recover_orphans (with_task running_task) clock (bytes "task_1") running_task 80 80
      (with_task_found running_task) refl

prune_retention_limits_example :
    let pruned = (prune_retention size_of done_table 50 100 0 0).1 in
    ((length (values pruned.tasks) ≤ 0) × (total size_of (values pruned.tasks) ≤ 0))
    ⊎ ((id : Str) (t : Task) → lookup id pruned.tasks ≡ some t → terminal t.state ≡ false)
prune_retention_limits_example =
    prune_retention_limits size_of done_table 50 100 0 0
      (run-IsIndexed size_of default_table history history-AreFresh default-IsIndexed)

letter-HasNoNul : (c : ℕ) → c ≢ 0 → HasNoNul (c ∷ [])
letter-HasNoNul c h = (h, tt)
