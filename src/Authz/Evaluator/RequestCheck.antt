-- ===== src/Authz/Evaluator/RequestCheck.antt =====
-- crates/authz/src/evaluator.rs, `evaluate_authorization_request`: may this request proceed?
pub mod Rules
pub mod Decides
pub mod Denials
pub mod Failures
pub mod Reasons
pub mod Explained
pub mod Grants
use multi.Prelude.{
  ℕ, zero, suc, ◌+◌, String, ◌<>◌, Bool, true, false, not, ◌||◌, Option, none, some, List, [], ◌∷◌,
  ◌==◌, string_eq, if◌then◌else◌, ℤ, show_ℕ, Result, ok, err, ◌>>=◌, ◌>>◌, ok_or,
}
use multi.Contract.Ids.{TenantId}
use multi.Contract.Delegation.{Delegation}
use multi.Contract.Principal
use multi.Contract.Principal.{Principal, principal_kind_eq}
use multi.Contract.Tenant.{TenantContext}
use multi.Authz.Policy.{
  Action, Effect, effect_eq, Policy, Rule, ResourceRef, ResourceSelector, matches,
  ResourceAttributes, AuthorizationRequest,
}
use multi.Authz.Reason.{
  unknown_tenant, unknown_principal, tenant_mismatch, policy_not_found, capability_not_granted,
  delegation_missing, delegation_scope_denied, policy_denied, condition_failed,
}
use multi.Authz.Decision.{ConditionEvidence, AuthorizationDecision}
use multi.Authz.Condition.{evaluate_condition, attributed_tenant}
use multi.Authz.Evaluator.{
  return_if, returned, deny_for, deny_for_with_conditions, allow, delegated_grant, claim_grant,
  agent_denial, delegation_denial, deny_if, delegation_scope_matches,
}

-- `rule.action.as_ref().is_some_and(|action| action != &request.action)`, negated
unfoldable pub action_fits : Option Action → Action → Bool
action_fits none action = true
action_fits (some wanted) action = wanted == action

-- A rule with a selector wants a request with a resource that it matches.
unfoldable pub selector_fits : Option ResourceSelector → Option ResourceRef → Bool
unfolding matches
selector_fits none resource = true
selector_fits (some selector) none = false
selector_fits (some selector) (some resource) = matches selector resource

-- Whether the rule is looked at, that is, none of the `continue`s before its condition is taken.
unfoldable pub rule_applies : Rule → AuthorizationRequest → Bool
unfolding action_fits selector_fits
rule_applies rule request =
    if not (rule.capability == request.capability)
    then false
    else if not (action_fits rule.action request.action)
    then false
    else selector_fits rule.resource request.resource

-- What a rule whose condition holds decides.
unfoldable pub rule_decision :
    Policy
    → Principal
    → TenantContext
    → AuthorizationRequest
    → ℕ
    → Rule
    → List ConditionEvidence
    → AuthorizationDecision
unfolding allow claim_grant
rule_decision policy principal tenant request index rule conditions =
    let matched = ("rule:" <> show_ℕ index) ∷ [] in
    if rule.effect == Effect.deny
    then AuthorizationDecision.deny policy_denied (some request.capability) request.resource
        (some request.action) (some policy.id) matched conditions none
    else allow (claim_grant policy principal tenant rule request.capability) request.resource
        (some request.action) matched conditions

-- The loop over the rules returns, or leaves the evidence of the last condition that failed.
pub data Scan : Type 0 where
  decided : AuthorizationDecision → Scan
  undecided : Option (List ConditionEvidence) → Scan

unfoldable pub scan_rules :
    Option ℤ
    → Policy
    → Principal
    → TenantContext
    → AuthorizationRequest
    → Option ResourceAttributes
    → ℕ
    → Option (List ConditionEvidence)
    → List Rule
    → Scan
unfolding rule_applies rule_decision
scan_rules clock policy principal tenant request attributes index failed [] = undecided failed
scan_rules clock policy principal tenant request attributes index failed (rule ∷ rules) =
    let skipped =
      scan_rules clock policy principal tenant request attributes (suc index) failed rules in
    let (matches, conditions) = evaluate_condition clock principal attributes rule.condition in
    let not_met =
      scan_rules clock policy principal tenant request attributes (suc index) (some conditions)
        rules in
    if not (rule_applies rule request)
    then skipped
    else if not matches
    then not_met
    else decided (rule_decision policy principal tenant request index rule conditions)

-- The resource belongs to the tenant that its resolver says, or else to the one that it names.
unfoldable pub resource_tenant : ResourceRef → Option ResourceAttributes → TenantId
resource_tenant resource attributes = elim (attributed_tenant attributes) [
  | none ↦ resource.tenant_id
  | some t ↦ t
]

unfoldable pub crosses_tenant :
    TenantContext → Option ResourceRef → Option ResourceAttributes → Bool
unfolding resource_tenant
crosses_tenant tenant none attributes = false
crosses_tenant tenant (some resource) attributes =
    not (resource_tenant resource attributes == tenant.tenant_id)

unfoldable pub by_delegation :
    Policy
    → Principal
    → TenantContext
    → Option Delegation
    → AuthorizationRequest
    → Option ResourceAttributes
    → ℤ
    → Result AuthorizationDecision AuthorizationDecision
unfolding deny_for allow delegated_grant delegation_denial
by_delegation policy principal tenant delegation request attributes now = do
  delegation ← ok_or delegation (deny_for request delegation_missing (some policy))
  deny_if (λ reason. deny_for request reason (some policy))
      (delegation_denial principal tenant delegation request.capability now)
  return_if (not (delegation_scope_matches delegation.resource_scope request attributes))
      (deny_for request delegation_scope_denied (some policy))
  ok (
      allow (delegated_grant policy principal tenant delegation request.capability) request.resource
        (some request.action) ("delegation" ∷ []) [])

unfoldable pub no_grant :
    Policy → AuthorizationRequest → Option (List ConditionEvidence) → AuthorizationDecision
unfolding deny_for deny_for_with_conditions
no_grant policy request none = deny_for request capability_not_granted (some policy)
no_grant policy request (some conditions) =
    deny_for_with_conditions request condition_failed (some policy) conditions

unfoldable pub after_rules :
    Policy
    → Principal
    → TenantContext
    → Option Delegation
    → AuthorizationRequest
    → Option ResourceAttributes
    → ℤ
    → Scan
    → Result AuthorizationDecision AuthorizationDecision
unfolding by_delegation no_grant
after_rules policy principal tenant delegation request attributes now (decided decision) =
    err decision
after_rules policy principal tenant delegation request attributes now (undecided failed) =
    if principal.kind == Principal.agent
    then by_delegation policy principal tenant delegation request attributes now
    else ok (no_grant policy request failed)

unfoldable pub evaluate_authorization_request :
    Option ℤ
    → Option Policy
    → Option Principal
    → Option TenantContext
    → Option Delegation
    → AuthorizationRequest
    → Option ResourceAttributes
    → ℤ
    → AuthorizationDecision
unfolding deny_for agent_denial crosses_tenant scan_rules after_rules
evaluate_authorization_request clock policy principal tenant delegation request attributes now =
    returned (do
      policy ← ok_or policy (deny_for request policy_not_found none)
      principal ← ok_or principal (deny_for request unknown_principal (some policy))
      tenant ← ok_or tenant (deny_for request unknown_tenant (some policy))
      return_if
          (not (principal.id == request.principal)
            || not (principal.tenant_id == tenant.tenant_id)
            || not (tenant.tenant_id == request.tenant)
            || not (policy.id == tenant.policy_id))
          (deny_for request tenant_mismatch (some policy))
      return_if (crosses_tenant tenant request.resource attributes)
          (deny_for request tenant_mismatch (some policy))
      deny_if (λ reason. deny_for request reason (some policy)) (agent_denial principal)
      after_rules policy principal tenant delegation request attributes now
          (scan_rules clock policy principal tenant request attributes zero none policy.rules))
