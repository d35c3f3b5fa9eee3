-- ===== src/Schema/Handoff.antt =====
-- `DriverHandoffRequest` and `AgentMutationOperation` of crates/workbench-schema/src/lib.rs.
use distributed_workbench.Base.{ℕ, Str, Option}

pub data DriverHandoffState : Type 0 where
  requested draining ready completed cancelled expired : DriverHandoffState

pub record DriverHandoffRequest : Type 0 where
  pub id : Str
  pub workspace_session_id : Str
  pub resource : Str
  pub requested_by : Str
  pub previous_owner : Option Str
  pub state : DriverHandoffState
  pub created_at : ℕ
  pub expires_at : ℕ
  pub completed_at : Option ℕ

pub record AgentMutationOperation : Type 0 where
  pub id : Str
  pub workspace_session_id : Str
  pub agent_id : Str
  pub tool : Str
  pub started_at : ℕ
