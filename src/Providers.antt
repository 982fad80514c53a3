-- ===== src/Providers.antt =====
-- crates/providers: the connectors that prove external identities.
pub mod Connector
