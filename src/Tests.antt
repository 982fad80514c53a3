-- ===== src/Tests.antt =====
-- Concrete inputs that the theorems of the development apply to.
pub mod Data
pub mod Contract
pub mod Decisions
pub mod Envelopes
pub mod Stores
pub mod Runs
pub mod Audit
pub mod Mesh
pub mod Accounts
pub mod Boundary
