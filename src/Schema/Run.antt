-- ===== src/Schema/Run.antt =====
-- `Run` and `Observation` of crates/workbench-schema/src/lib.rs.
use distributed_workbench.Base.{ℕ, Str, Bool, true, false, Option}
use distributed_workbench.Json.{Value}

pub data RunStatus : Type 0 where
  running completed cancelled interrupted : RunStatus

pub data RunHealth : Type 0 where
  healthy degraded failed unknown : RunHealth

pub record Run : Type 0 where
  pub run_id : Str
  pub workspace_session_id : Option Str
  pub agent_session_id : Option Str
  pub target_summary : Str
  pub created_by : Str
  pub status : RunStatus
  pub health : RunHealth
  pub started_at : ℕ
  pub finished_at : Option ℕ
  pub business_outcome : Option Str

pub record Observation : Type 0 where
  pub event_id : ℕ
  pub run_id : Option Str
  pub timestamp : ℕ
  pub node_id : Str
  pub role : Str
  pub kind : Str
  pub name : Str
  pub status : Str
  pub duration_ms : Option ℕ
  pub span_id : Option Str
  pub parent_span_id : Option Str
  pub request_id : Option Str
  pub task_id : Option Str
  pub process_id : Option Str
  pub connection_id : Option Str
  pub attributes : Value

abbrev pub is_running : RunStatus → Bool
is_running running = true
is_running completed = false
is_running cancelled = false
is_running interrupted = false
