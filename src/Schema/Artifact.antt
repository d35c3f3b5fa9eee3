-- ===== src/Schema/Artifact.antt =====
-- `Artifact`, `ArtifactLocation` and `Provenance` of crates/workbench-schema/src/lib.rs.
use distributed_workbench.Base.{ℕ, Str, Option, List}
use distributed_workbench.Base.Map.{Map}

pub data ArtifactLocation : Type 0 where
  file_at : (executor_id path : Str) → ArtifactLocation
  url_at : (url : Str) → ArtifactLocation

pub record Provenance : Type 0 where
  pub workspace_session_id : Str
  pub task_id : Option Str
  pub source_digests : List Str
  pub attributes : Map Str

pub record Artifact : Type 0 where
  pub digest : Str
  pub artifact_type : Str
  pub schema : Str
  pub size : ℕ
  pub locations : List ArtifactLocation
  pub provenance : Provenance
  pub created_at : ℕ
