-- ===== src/Storage.antt =====
-- crates/storage: the in-memory stores. A store is a value; an operation that changes it returns the
-- new one beside its result. A poisoned lock, which wants a panic inside an operation, is not modelled.
pub mod Sorting
pub mod Delegations
pub mod Principals
pub mod Sessions
pub mod Runs
pub mod Identities
pub mod Tenants
pub mod Audit
