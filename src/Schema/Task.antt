-- ===== src/Schema/Task.antt =====
-- `Task`, `TaskState`, `TaskEvent` and `TaskError` of crates/workbench-schema/src/lib.rs.
use distributed_workbench.Base.{ℕ, Str, Bool, true, false, Option, List}
use distributed_workbench.Json.{Value}

pub data TaskState : Type 0 where
  queued running cancel_requested cancelling succeeded : TaskState
  failed cancelled failed_to_cancel timed_out outcome_unknown : TaskState

abbrev pub terminal : TaskState → Bool
terminal queued = false
terminal running = false
terminal cancel_requested = false
terminal cancelling = false
terminal succeeded = true
terminal failed = true
terminal cancelled = true
terminal failed_to_cancel = true
terminal timed_out = true
terminal outcome_unknown = true

pub record TaskEvent : Type 0 where
  pub sequence : ℕ
  pub timestamp : ℕ
  pub event_type : Str
  pub details : Value

pub record TaskError : Type 0 where
  pub code : Str
  pub message : Str
  pub retryable : Bool
  pub details : Value

pub record Task : Type 0 where
  pub id : Str
  pub correlation_id : Option Str
  pub request_id : Option Str
  pub workspace_session_id : Str
  pub executor_id : Str
  pub capability : Str
  pub input : Value
  pub output : Option Value
  pub error : Option TaskError
  pub idempotency_key : Str
  pub state : TaskState
  pub attempt : ℕ
  pub created_at : ℕ
  pub updated_at : ℕ
  pub events : List TaskEvent
