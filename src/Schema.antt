-- ===== src/Schema.antt =====
-- The resource contracts of crates/workbench-schema/src/lib.rs, by the part that uses them.
pub mod Lease
pub mod Run
pub mod Task
pub mod Artifact
pub mod Generation
pub mod Grant
pub mod Handoff
