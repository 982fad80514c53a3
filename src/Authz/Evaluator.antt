-- ===== src/Authz/Evaluator.antt =====
-- crates/authz/src/evaluator.rs: the policy engine. An early `return` is an `err` that carries the
-- decision; `clock` is the system clock of Condition.antt, and `now` the time the caller passes.
pub mod CapabilityCheck
pub mod RequestCheck
pub mod Narrowing
pub mod Envelope
use multi.Prelude.{
  ℕ, zero, suc, ◌+◌, String, ◌<>◌, Bool, true, false, not, ◌&&◌, ◌||◌, Option, none, some, List, [],
  ◌∷◌, ◌++◌, Dict, lookup, any, all, Eq, ◌==◌, string_eq, option_eq, contains, is_some,
  if◌then◌else◌, ℤ, i64_min, show_ℕ, Result, ok, err, ◌>>=◌, ◌>>◌, ok_or,
}
use multi.Contract.Ids.{Capability, TenantId, DelegationId}
use multi.Contract.Claims.{ClaimValue, enum, string, integer, boolean, claim_value_eq}
use multi.Contract.Scope.{ResourceScope, is_unconstrained}
use multi.Contract.Delegation.{Delegation, is_valid_at}
use multi.Contract.Principal
use multi.Contract.Principal.{
  Principal, AgentState, principal_kind_eq, agent_state_eq, created, active, suspended, revoked,
  retired,
}
use multi.Contract.Tenant.{TenantContext}
use multi.Authz.Policy.{
  Action, Effect, effect_eq, Policy, Rule, ResourceRef, ResourceSelector, matches,
  ResourceAttributes, AuthorizationRequest,
}
use multi.Authz.Reason.{
  DenialReason, unknown_tenant, unknown_principal, tenant_mismatch, policy_not_found,
  capability_not_granted, expired_delegation, revoked_delegation, invalid_delegation,
  delegation_missing, delegation_scope_denied, agent_revoked, agent_suspended, policy_denied,
  condition_failed,
}
use multi.Authz.Decision
use multi.Authz.Decision.{
  ConditionEvidence, GrantedCapability, CapabilityEnvelope, AuthorizationDecision, claim, delegated,
}
use multi.Authz.Condition.{evaluate_condition, condition_matches, claim_basis, attribute}

-- `if test { return decision; }`
abbrev pub return_if : {E : Type 0} → Bool → E → Result E (Unit {0})
return_if true e = err e
return_if false e = ok tt

-- What a body with early returns returns.
abbrev pub returned : {D : Type 0} → Result D D → D
returned (ok d) = d
returned (err d) = d

-- The private `deny`, `deny_for_with_conditions` and `deny_for`.
unfoldable pub deny : DenialReason → AuthorizationDecision
deny reason = AuthorizationDecision.deny reason none none none none [] [] none

abbrev policy_id : Option Policy → Option String
policy_id none = none
policy_id (some policy) = some policy.id

unfoldable pub deny_for_with_conditions :
    AuthorizationRequest
    → DenialReason
    → Option Policy
    → List ConditionEvidence
    → AuthorizationDecision
deny_for_with_conditions request reason policy conditions =
    AuthorizationDecision.deny reason (some request.capability) request.resource
      (some request.action) (policy_id policy) [] conditions none

unfoldable pub deny_for :
    AuthorizationRequest → DenialReason → Option Policy → AuthorizationDecision
unfolding deny_for_with_conditions
deny_for request reason policy = deny_for_with_conditions request reason policy []

unfoldable pub allow :
    GrantedCapability
    → Option ResourceRef
    → Option Action
    → List String
    → List ConditionEvidence
    → AuthorizationDecision
allow grant resource action matched_rules conditions =
    AuthorizationDecision.allow grant resource action matched_rules conditions none

unfoldable pub matches_tenant : ClaimValue → String → Bool
matches_tenant (enum value) tenant_id = value == tenant_id
matches_tenant (string value) tenant_id = value == tenant_id
matches_tenant (integer value) tenant_id = false
matches_tenant (boolean value) tenant_id = false

-- `if let Some(resource_type) = .. { if resource_type != .. { return false; } }`
unfoldable pub type_fits : Option String → String → Bool
type_fits none resource_type = true
type_fits (some wanted) resource_type = wanted == resource_type

unfoldable pub id_fits : Option String → String → Bool
id_fits none resource_id = true
id_fits (some wanted) resource_id = wanted == "*" || wanted == resource_id

unfoldable pub attribute_fits : ResourceRef → Option ResourceAttributes → String → ClaimValue → Bool
unfolding matches_tenant
attribute_fits resource attributes key expected =
    if key == "tenant" || key == "tenant_id"
    then matches_tenant expected resource.tenant_id
    else attribute attributes key == some expected

unfoldable pub resource_fits : ResourceScope → Option ResourceRef → Option ResourceAttributes → Bool
unfolding type_fits id_fits attribute_fits
resource_fits scope none attributes = false
resource_fits scope (some resource) attributes =
    if not (type_fits scope.resource_type resource.resource_type)
    then false
    else if not (id_fits scope.resource_id resource.resource_id)
    then false
    else all (λ (key, expected). attribute_fits resource attributes key expected) scope.attributes

unfoldable pub delegation_scope_matches :
    ResourceScope → AuthorizationRequest → Option ResourceAttributes → Bool
unfolding resource_fits
delegation_scope_matches scope request attributes =
    if is_unconstrained scope then true else resource_fits scope request.resource attributes

unfoldable pub delegation_chain : Delegation → List DelegationId
delegation_chain d = d.chain ++ d.id ∷ []

unfoldable pub delegated_grant :
    Policy → Principal → TenantContext → Delegation → Capability → GrantedCapability
unfolding delegation_chain
delegated_grant policy principal tenant delegation capability = record {
  capability = capability;
  policy_id = policy.id;
  tenant_id = tenant.tenant_id;
  principal_id = principal.id;
  principal_kind = principal.kind;
  authority = delegated;
  claim_basis = ("delegation:" <> delegation.delegator) ∷ [];
  delegation_id = some delegation.id;
  delegation_chain = delegation_chain delegation;
  delegated_by = some delegation.delegator;
}

-- The grant that a rule gives, written out at three places of the source.
unfoldable pub claim_grant :
    Policy → Principal → TenantContext → Rule → Capability → GrantedCapability
claim_grant policy principal tenant rule capability = record {
  capability = capability;
  policy_id = policy.id;
  tenant_id = tenant.tenant_id;
  principal_id = principal.id;
  principal_kind = principal.kind;
  authority = claim;
  claim_basis = claim_basis rule.condition;
  delegation_id = none;
  delegation_chain = [];
  delegated_by = none;
}

-- An agent that is not active carries no authority.
unfoldable pub is_inactive_agent : Principal → Bool
is_inactive_agent p = p.kind == Principal.agent && not (p.agent_state == some active)

-- The loop over the rules.
unfoldable pub rule_grants :
    Option ℤ → Policy → Principal → TenantContext → List Rule → List GrantedCapability
rule_grants clock policy principal tenant [] = []
rule_grants clock policy principal tenant (rule ∷ rules) =
    let rest = rule_grants clock policy principal tenant rules in
    if condition_matches clock principal rule.condition
    then claim_grant policy principal tenant rule rule.capability ∷ rest
    else rest

-- `granted.iter().any(|grant| &grant.capability == capability)`
abbrev pub granted_already : List GrantedCapability → Capability → Bool
granted_already granted capability = any (λ g. g.capability == capability) granted

-- The loop over the capabilities of one delegation, which pushes what is not granted yet.
unfoldable pub push_delegated :
    Policy
    → Principal
    → TenantContext
    → Delegation
    → List GrantedCapability
    → List Capability
    → List GrantedCapability
push_delegated policy principal tenant delegation granted [] = granted
push_delegated policy principal tenant delegation granted (capability ∷ rest) =
    push_delegated policy principal tenant delegation
      (if granted_already granted capability
        then granted
        else granted ++ delegated_grant policy principal tenant delegation capability ∷ [])
      rest

-- `delegation.tenant_id != .. || delegation.delegate != .. || !delegation.is_valid_at(now)`
unfoldable pub is_live_for : Principal → TenantContext → ℤ → Delegation → Bool
is_live_for principal tenant now d = not (
    not (d.tenant_id == tenant.tenant_id)
    || not (d.delegate == principal.id)
    || not (is_valid_at d now))

unfoldable pub push_delegations :
    Policy
    → Principal
    → TenantContext
    → ℤ
    → List GrantedCapability
    → List Delegation
    → List GrantedCapability
unfolding push_delegated is_live_for
push_delegations policy principal tenant now granted [] = granted
push_delegations policy principal tenant now granted (d ∷ rest) =
    push_delegations policy principal tenant now
      (if is_live_for principal tenant now d
        then push_delegated policy principal tenant d granted d.capabilities
        else granted)
      rest

unfoldable pub evaluate_with_delegations :
    Option ℤ
    → Policy
    → Principal
    → TenantContext
    → List Delegation
    → ℤ
    → Result String CapabilityEnvelope
unfolding is_inactive_agent rule_grants push_delegations
evaluate_with_delegations clock policy principal tenant delegations now =
    if not (principal.tenant_id == tenant.tenant_id)
    then err "principal tenant does not match tenant context"
    else if not (policy.id == tenant.policy_id)
    then err "policy does not match tenant context"
    else if is_inactive_agent principal
    then ok Decision.empty
    else ok (record {
      granted_capabilities =
          push_delegations policy principal tenant now
            (rule_grants clock policy principal tenant policy.rules) delegations;
    })

unfoldable pub evaluate :
    Option ℤ → Policy → Principal → TenantContext → Result String CapabilityEnvelope
unfolding evaluate_with_delegations
evaluate clock policy principal tenant =
    evaluate_with_delegations clock policy principal tenant [] i64_min

-- `match principal.agent_state` where the principal is an agent: `none` lets the agent pass.
unfoldable pub agent_state_denial : Option AgentState → Option DenialReason
agent_state_denial (some active) = none
agent_state_denial (some revoked) = some agent_revoked
agent_state_denial (some retired) = some agent_revoked
agent_state_denial (some suspended) = some agent_suspended
agent_state_denial (some created) = some unknown_principal
agent_state_denial none = some unknown_principal

unfoldable pub agent_denial : Principal → Option DenialReason
unfolding agent_state_denial
agent_denial p = if p.kind == Principal.agent then agent_state_denial p.agent_state else none

-- The tests on the delegation of an agent that both entry points make, in their order.
unfoldable pub delegation_denial :
    Principal → TenantContext → Delegation → Capability → ℤ → Option DenialReason
delegation_denial principal tenant d capability now =
    if not (d.tenant_id == tenant.tenant_id) || not (d.delegate == principal.id)
    then some invalid_delegation
    else if is_some d.revoked_at
    then some revoked_delegation
    else if not (is_valid_at d now)
    then some expired_delegation
    else if not (contains d.capabilities capability)
    then some delegation_missing
    else none

-- `if let Some(reason) = .. { return deny(reason); }`
abbrev pub deny_if :
    (DenialReason → AuthorizationDecision)
    → Option DenialReason
    → Result AuthorizationDecision (Unit {0})
deny_if to_decision none = ok tt
deny_if to_decision (some reason) = err (to_decision reason)
