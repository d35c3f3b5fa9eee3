-- ===== src/Schema/Grant.antt =====
-- `ReadGrant` of crates/workbench-schema/src/lib.rs; a path is the list of its components.
use distributed_workbench.Base.{ℕ, Str, Bool, true, false, Option, List}
use distributed_workbench.Json.{Value}

pub data ReadGrantState : Type 0 where
  requested approved revoked expired : ReadGrantState

abbrev pub FsPath : Type 0
FsPath = List Str

pub record ReadGrant : Type 0 where
  pub id : Str
  pub workspace_session_id : Str
  pub executor_id : Str
  pub requested_root : FsPath
  pub real_root : FsPath
  pub capabilities : List Str
  pub state : ReadGrantState
  pub requested_by : Str
  pub created_at : ℕ
  pub approved_at : Option ℕ
  pub revoked_at : Option ℕ
  pub approved_by : Option Str
  pub audit : Value

abbrev pub is_approved : ReadGrantState → Bool
is_approved approved = true
is_approved requested = false
is_approved revoked = false
is_approved expired = false
