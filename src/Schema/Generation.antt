-- ===== src/Schema/Generation.antt =====
-- `GenerationState` of crates/workbench-schema/src/lib.rs.
use distributed_workbench.Base.{Bool, true, false}

pub data GenerationState : Type 0 where
  reserved materializing materialized validated finalized : GenerationState
  smoke_passed active superseded failed : GenerationState

-- `==` on states.
abbrev pub same_state : GenerationState → GenerationState → Bool
same_state reserved reserved = true
same_state materializing materializing = true
same_state materialized materialized = true
same_state validated validated = true
same_state finalized finalized = true
same_state smoke_passed smoke_passed = true
same_state active active = true
same_state superseded superseded = true
same_state failed failed = true
same_state _ _ = false
