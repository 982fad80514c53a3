-- ===== src/Authz.antt =====
-- crates/authz: policies, conditions, and the one engine that decides for every kind of principal.
pub mod Policy
pub mod Reason
pub mod Decision
pub mod Evidence
pub mod Outcome
pub mod Condition
pub mod Evaluator
