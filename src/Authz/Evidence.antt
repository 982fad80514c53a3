-- ===== src/Authz/Evidence.antt =====
-- crates/authz/src/policy.rs, `AuthorizationEvidence`: what is remembered of a decision.
use multi.Prelude.{ℕ, String, Option, List, ℤ}
use multi.Contract.Ids.{
  AuditEventId, Capability, DelegationId, PolicyId, PrincipalId, RunId, TaskId, TenantId,
}
use multi.Contract.Scope.{ResourceScope}
use multi.Authz.Policy.{Action, ResourceRef}
use multi.Authz.Decision.{AuthorityBasis, ConditionEvidence}
use multi.Authz.Outcome.{DecisionReason}

pub data AuthorizationOutcome : Type 0 where
  allow deny : AuthorizationOutcome

pub record AuthorizationEvidence : Type 0 where
  pub decision_id : String
  pub timestamp : ℤ
  pub principal : PrincipalId
  pub tenant : TenantId
  pub capability : Capability
  pub action : Option Action
  pub resource : Option ResourceRef
  pub policy_id : Option PolicyId
  pub matched_rules : List String
  pub conditions : List ConditionEvidence
  pub authority : Option AuthorityBasis
  pub delegated_by : Option PrincipalId
  pub delegation_chain : List DelegationId
  pub run_id : Option RunId
  pub task_id : Option TaskId
  pub agent_principal : Option PrincipalId
  pub delegation_id : Option DelegationId
  pub parent_run_id : Option RunId
  pub execution_scope : Option ResourceScope
  pub authority_revision : ℕ
  pub contract_fingerprint : String
  pub decision : AuthorizationOutcome
  pub reason : DecisionReason
  pub audit_event_id : Option AuditEventId
