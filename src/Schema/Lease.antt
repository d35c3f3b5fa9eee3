-- ===== src/Schema/Lease.antt =====
-- `Lease` and `LeaseKind` of crates/workbench-schema/src/lib.rs.
use distributed_workbench.Base.{ℕ, Str, Option}

pub data LeaseKind : Type 0 where
  driver resource : LeaseKind

pub record Lease : Type 0 where
  pub id : Str
  pub kind : LeaseKind
  pub resource : Str
  pub owner : Str
  pub token : Str
  pub fence : ℕ
  pub acquired_at : ℕ
  pub updated_at : ℕ
  pub expires_at : ℕ
  pub handoff_to : Option Str
