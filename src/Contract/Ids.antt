-- ===== src/Contract/Ids.antt =====
-- crates/contract/src/ids.rs: every identifier is a newtype around a text, compared as that text.
use multi.Prelude.{String}

abbrev pub TenantId : Type 0
TenantId = String

abbrev pub PrincipalId : Type 0
PrincipalId = String

abbrev pub AgentId : Type 0
AgentId = String

abbrev pub AgentCredentialId : Type 0
AgentCredentialId = String

abbrev pub IdentityId : Type 0
IdentityId = String

abbrev pub SessionId : Type 0
SessionId = String

abbrev pub PolicyId : Type 0
PolicyId = String

abbrev pub StorageRootId : Type 0
StorageRootId = String

abbrev pub ProviderName : Type 0
ProviderName = String

abbrev pub ProviderSubject : Type 0
ProviderSubject = String

abbrev pub Capability : Type 0
Capability = String

abbrev pub DelegationId : Type 0
DelegationId = String

abbrev pub AuditEventId : Type 0
AuditEventId = String

abbrev pub RunId : Type 0
RunId = String

abbrev pub TaskId : Type 0
TaskId = String

abbrev pub ExecutionCredentialId : Type 0
ExecutionCredentialId = String
