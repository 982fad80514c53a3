-- ===== src/Dsl.antt =====
-- crates/dsl: the declaration that the runtime reads, and the hash that its ids are made of.
pub mod Hash
pub mod Model
pub mod Passwords
