-- ===== src/Tests.antt =====
-- Concrete runs of the definitions, and the theorems at concrete inputs.
pub mod Arbiter
pub mod Dispatching
pub mod Evidence
pub mod Executors
pub mod Grants
pub mod Leases
pub mod Observations
pub mod Peers
pub mod Processes
pub mod Queue
pub mod Rules
pub mod Tasks
pub mod Values
