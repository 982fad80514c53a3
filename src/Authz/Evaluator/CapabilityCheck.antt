-- ===== src/Authz/Evaluator/CapabilityCheck.antt =====
-- crates/authz/src/evaluator.rs, `evaluate_capability`: may this principal use this capability?
pub mod Allows
pub mod Gaps
use multi.Prelude.{
  String, Bool, true, false, not, ◌||◌, Option, none, some, List, [], ◌∷◌, ◌==◌, string_eq,
  if◌then◌else◌, ℤ, Result, ok, err, ◌>>=◌, ◌>>◌, ok_or,
}
use multi.Contract.Ids.{Capability}
use multi.Contract.Delegation.{Delegation}
use multi.Contract.Principal
use multi.Contract.Principal.{Principal, principal_kind_eq}
use multi.Contract.Tenant.{TenantContext}
use multi.Authz.Policy.{Policy, Rule}
use multi.Authz.Reason.{
  unknown_tenant, unknown_principal, tenant_mismatch, policy_not_found, capability_not_granted,
  delegation_missing,
}
use multi.Authz.Decision.{AuthorizationDecision}
use multi.Authz.Condition.{evaluate_condition, claim_basis}
use multi.Authz.Evaluator.{
  return_if, returned, deny, allow, delegated_grant, claim_grant, agent_denial, delegation_denial,
  deny_if,
}

-- The loop over the rules: the first rule for the capability whose condition holds allows.
unfoldable pub scan_capability :
    Option ℤ
    → Policy
    → Principal
    → TenantContext
    → Capability
    → List Rule
    → Option AuthorizationDecision
unfolding allow claim_grant
scan_capability clock policy principal tenant capability [] = none
scan_capability clock policy principal tenant capability (rule ∷ rules) =
    let rest = scan_capability clock policy principal tenant capability rules in
    let (matches, conditions) = evaluate_condition clock principal none rule.condition in
    if rule.capability == capability
    then if not matches
      then rest
      else some (
          allow (claim_grant policy principal tenant rule capability) none none
            (claim_basis rule.condition) conditions)
    else rest

-- What an agent may do by its delegation.
unfoldable pub by_delegation :
    Policy
    → Principal
    → TenantContext
    → Option Delegation
    → Capability
    → ℤ
    → Result AuthorizationDecision AuthorizationDecision
unfolding deny allow delegated_grant delegation_denial
by_delegation policy principal tenant delegation capability now = do
  delegation ← ok_or delegation (deny delegation_missing)
  deny_if deny (delegation_denial principal tenant delegation capability now)
  ok (
      allow (delegated_grant policy principal tenant delegation capability) none none
        ("delegation" ∷ []) [])

-- A loop that returns, or falls through.
abbrev pub unless_returned {ℓ} : {E : Type ℓ} → Option E → Result E (Unit {0})
unless_returned none = ok tt
unless_returned (some decision) = err decision

unfoldable pub evaluate_capability :
    Option ℤ
    → Option Policy
    → Option Principal
    → Option TenantContext
    → Option Delegation
    → Capability
    → ℤ
    → AuthorizationDecision
unfolding deny agent_denial scan_capability by_delegation
evaluate_capability clock policy principal tenant delegation capability now = returned (do
  policy ← ok_or policy (deny policy_not_found)
  principal ← ok_or principal (deny unknown_principal)
  tenant ← ok_or tenant (deny unknown_tenant)
  return_if (not (principal.tenant_id == tenant.tenant_id) || not (policy.id == tenant.policy_id))
      (deny tenant_mismatch)
  deny_if deny (agent_denial principal)
  unless_returned (scan_capability clock policy principal tenant capability policy.rules)
  if principal.kind == Principal.agent
      then by_delegation policy principal tenant delegation capability now
      else ok (deny capability_not_granted))
