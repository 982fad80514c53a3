-- ===== src/Contract.antt =====
-- crates/contract: the vocabulary that every other crate shares. One module per source file.
pub mod Ids
pub mod Claims
pub mod Scope
pub mod Delegation
pub mod Principal
pub mod Tenant
pub mod Run
pub mod Ceremony
pub mod Recovery
