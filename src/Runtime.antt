-- ===== src/Runtime.antt =====
-- crates/runtime/src: what the mesh decides before it writes to its stores.
pub mod Errors
pub mod Stateful
pub mod Policies
pub mod Stores
pub mod Mesh
pub mod Auditing
pub mod Picking
pub mod Delegating
pub mod Resolution
pub mod Running
pub mod Claims
pub mod Contexts
pub mod Connecting
pub mod Signing
pub mod Calls
pub mod Recording
pub mod Authorizing
