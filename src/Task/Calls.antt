-- ===== src/Task/Calls.antt =====
-- A history of a task table: calls with their clock readings and random identifiers.
use distributed_workbench.Base.{Str, ℕ, Result, Option, ok, List, ◌∷◌, err, []}
use distributed_workbench.Json.{Value}
use distributed_workbench.Schema.Task.{Task, TaskState, TaskError as TaskFailure}
use distributed_workbench.Task.{TaskTable, Submission, submit_traced, transition, retry, TaskError}
use distributed_workbench.Task.Pruning.{prune_terminal_before, prune_retention}
use distributed_workbench.Task.Recovery.{recover_orphans}
use distributed_workbench.Task.Submitting.{table_after, IsFresh}

pub data Op : Type 0 where
  submits : Submission → Op
  transitions : (id : Str) → TaskState → Option Value → Option TaskFailure → Op
  retries : (id : Str) → Op
  prunes_before : (cutoff : ℕ) → Op
  prunes : (retention_ms max_count max_bytes : ℕ) → Op
  recovers : (Str → ℕ × ℕ) → Op

pub record Call : Type 0 where
  pub op : Op
  pub now : ℕ
  pub event_now : ℕ
  pub uuid : Str

-- A call that fails leaves the table as it was.
abbrev pub after : TaskTable → Result TaskError (Task × TaskTable) → TaskTable
after table (ok (_, table')) = table'
after table (err e) = table

module _ (encoded_len : Task → ℕ) where
  unfoldable pub perform : TaskTable → Call → Op → TaskTable
  perform table c (submits s) = table_after table (submit_traced table s c.now c.event_now c.uuid)
  perform table c (transitions id state output error) =
      after table (transition table id state output error c.now c.event_now)
  perform table c (retries id) = after table (retry table id c.now c.event_now)
  perform table c (prunes_before cutoff) = (prune_terminal_before table cutoff).1
  perform table c (prunes retention_ms max_count max_bytes) =
      (prune_retention encoded_len table c.now retention_ms max_count max_bytes).1
  perform table c (recovers clock) = (recover_orphans table clock).1

  abbrev pub step : TaskTable → Call → TaskTable
  step table c = perform table c c.op

  unfoldable pub run : TaskTable → List Call → TaskTable
  run table [] = table
  run table (c ∷ cs) = run (step table c) cs

  -- Every random identifier is free when it is drawn.
  abbrev pub AreFresh : TaskTable → List Call → Type 0
  AreFresh table [] = Unit {0}
  AreFresh table (c ∷ cs) = IsFresh c.uuid table × AreFresh (step table c) cs
