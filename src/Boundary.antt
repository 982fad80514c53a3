-- ===== src/Boundary.antt =====
-- crates/boundary: the live authority state and the proposals to change it, and recovery challenges.
pub mod Control
pub mod Proposals
pub mod Challenges
pub mod Applying
