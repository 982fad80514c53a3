-- ===== src/Authz/Decision.antt =====
-- crates/authz/src/policy.rs: grants, envelopes, evidence and decisions.
use multi.Prelude.{
  String, Bool, true, false, Option, none, some, List, [], map, find, Eq, ◌==◌, string_eq, is_some,
}
use multi.Contract.Ids.{AuditEventId, Capability, DelegationId, PolicyId, PrincipalId, TenantId}
use multi.Contract.Principal.{PrincipalKind}
use multi.Authz.Policy.{ResourceRef, Action}
use multi.Authz.Reason.{DenialReason}

pub data ConditionResult : Type 0 where
  pass fail : ConditionResult

pub record ConditionEvidence : Type 0 where
  pub condition : String
  pub result : ConditionResult
  pub fact : Option String

pub data AuthorityBasis : Type 0 where
  claim delegated : AuthorityBasis

unfoldable pub AuthorityBasis-discrete : Discrete AuthorityBasis
AuthorityBasis-discrete = hlevel

instance abbrev pub authority_basis_eq : Eq AuthorityBasis
authority_basis_eq = record { dec = AuthorityBasis-discrete }

pub record GrantedCapability : Type 0 where
  pub capability : Capability
  pub policy_id : PolicyId
  pub tenant_id : TenantId
  pub principal_id : PrincipalId
  pub principal_kind : PrincipalKind
  pub authority : AuthorityBasis
  pub claim_basis : List String
  pub delegation_id : Option DelegationId
  pub delegation_chain : List DelegationId
  pub delegated_by : Option PrincipalId

unfoldable pub is_delegated : GrantedCapability → Bool
is_delegated g = g.authority == delegated

pub record CapabilityEnvelope : Type 0 where
  pub granted_capabilities : List GrantedCapability

unfoldable pub empty : CapabilityEnvelope
empty = record { granted_capabilities = [] }

-- `CapabilityEnvelope::grant`
unfoldable pub grant_for : CapabilityEnvelope → Capability → Option GrantedCapability
grant_for e capability = find (λ g. g.capability == capability) e.granted_capabilities

unfoldable pub allows : CapabilityEnvelope → Capability → Bool
unfolding grant_for
allows e capability = is_some (grant_for e capability)

unfoldable pub capabilities : CapabilityEnvelope → List Capability
capabilities e = map (λ g. g.capability) e.granted_capabilities

-- The fields of `AuthorizationDecision::Allow` and `Deny`, in the order of the source.
pub data AuthorizationDecision : Type 0 where
  allow :
      GrantedCapability
      → Option ResourceRef
      → Option Action
      → List String
      → List ConditionEvidence
      → Option AuditEventId
      → AuthorizationDecision
  deny :
      DenialReason
      → Option Capability
      → Option ResourceRef
      → Option Action
      → Option PolicyId
      → List String
      → List ConditionEvidence
      → Option AuditEventId
      → AuthorizationDecision

unfoldable pub is_allowed : AuthorizationDecision → Bool
is_allowed (allow g r a m c e) = true
is_allowed (deny d k r a p m c e) = false

unfoldable pub denial_reason : AuthorizationDecision → Option DenialReason
denial_reason (allow g r a m c e) = none
denial_reason (deny d k r a p m c e) = some d

unfoldable pub grant : AuthorizationDecision → Option GrantedCapability
grant (allow g r a m c e) = some g
grant (deny d k r a p m c e) = none

unfoldable pub conditions : AuthorizationDecision → List ConditionEvidence
conditions (allow g r a m c e) = c
conditions (deny d k r a p m c e) = c
