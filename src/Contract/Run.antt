-- ===== src/Contract/Run.antt =====
-- crates/contract/src/run.rs: an agent's run of one task.
use multi.Prelude.{ℕ, String, Option, List, ℤ}
use multi.Contract.Ids.{
  Capability, DelegationId, ExecutionCredentialId, PrincipalId, RunId, TaskId, TenantId,
}
use multi.Contract.Scope.{ResourceScope}

pub record TaskSpec : Type 0 where
  pub id : TaskId
  pub purpose : String
  pub capabilities : List Capability
  pub resource_scope : ResourceScope
  pub expires_at : ℤ
  pub constraints : List String

pub data RunStatus : Type 0 where
  active completed cancelled expired failed : RunStatus

pub record AgentRun : Type 0 where
  pub id : RunId
  pub tenant_id : TenantId
  pub agent_principal : PrincipalId
  pub delegator : PrincipalId
  pub delegation_id : DelegationId
  pub delegation_chain : List DelegationId
  pub task : TaskSpec
  pub parent_run_id : Option RunId
  pub created_at : ℤ
  pub expires_at : ℤ
  pub status : RunStatus
  pub authority_revision : ℕ
  pub contract_fingerprint : String
  pub capability_scope : List Capability
  pub resource_scope : ResourceScope
  pub execution_credential : ExecutionCredentialId
  pub cancelled_at : Option ℤ
