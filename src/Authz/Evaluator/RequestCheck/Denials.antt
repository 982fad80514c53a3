-- ===== src/Authz/Evaluator/RequestCheck/Denials.antt =====
-- Why a request is denied.
use multi.Prelude.{
  ◌↔◌, sym, ap, ◌∙◌, ◌==◌, Option-cases, Option, none, some, ◌≡◌, ◌≢◌, inl, inr, any, string_eq,
  if◌then◌else◌, ℤ, arith, Bool-cases,
}
use multi.Contract.Delegation.{Delegation}
use multi.Contract.Principal
use multi.Contract.Principal.{Principal, principal_kind_eq}
use multi.Contract.Tenant.{TenantContext}
use multi.Authz.Policy.{Effect, Policy, Rule, ResourceAttributes, AuthorizationRequest}
use multi.Authz.Reason.{
  DenialReason, tenant_mismatch, policy_denied, condition_failed, capability_not_granted,
}
use multi.Authz.Decision.{denial_reason, conditions}
use multi.Authz.Condition.{evaluate_condition}
use multi.Contract.Ids.{Capability}
use multi.Authz.Evaluator.{returned, agent_denial, delegation_denial}
use multi.Authz.Evaluator.RequestCheck.{
  rule_applies, rule_decision, by_delegation, after_rules, no_grant, evaluate_authorization_request,
}
use multi.Authz.Evaluator.RequestCheck.Rules.{stopped, ran_out, scan_rules-Scanned}
use multi.Authz.Evaluator.RequestCheck.Decides.{
  InTenant, Admitted, first_match, after, scan, whole, whole-after, agent_denial_iff,
  crosses_tenant_iff,
}

-- Principal, tenant, policy and request belong together, and the resource is of the tenant.
pub record BelongsTogether (policy : Policy) (principal : Principal) (tenant : TenantContext)
    (request : AuthorizationRequest) (attributes : Option ResourceAttributes) : Type 0 where
  pub own_request : principal.id ≡ request.principal
  pub own_tenant : principal.tenant_id ≡ tenant.tenant_id
  pub requested_tenant : tenant.tenant_id ≡ request.tenant
  pub own_policy : policy.id ≡ tenant.policy_id
  pub resource_in_tenant : InTenant tenant request.resource attributes

pub reason-discrete : Discrete (Option DenialReason)
reason-discrete = hlevel

pub Admitted-of_together :
    {policy : Policy} {principal : Principal} {tenant : TenantContext}
    {request : AuthorizationRequest} {attributes : Option ResourceAttributes}
    → BelongsTogether policy principal tenant request attributes
    → agent_denial principal ≡ none
    → Admitted policy principal tenant request attributes
Admitted-of_together {principal = principal} b passes = record {
  own_request = b.own_request;
  own_tenant = b.own_tenant;
  requested_tenant = b.requested_tenant;
  own_policy = b.own_policy;
  resource_in_tenant = b.resource_in_tenant;
  active_agent = (agent_denial_iff principal).0 passes;
}

agent_denial-other : (p : Principal) → agent_denial p ≢ some tenant_mismatch
unfolding agent_denial
agent_denial-other p h = ground arith

delegation_denial-other :
    (principal : Principal) (tenant : TenantContext) (d : Delegation) (c : Capability) (now : ℤ)
    → delegation_denial principal tenant d c now ≢ some tenant_mismatch
unfolding delegation_denial
delegation_denial-other principal tenant d c now h = ground arith

module _ (clock : Option ℤ) (policy : Policy) (principal : Principal) (tenant : TenantContext)
    (delegation : Option Delegation) (request : AuthorizationRequest)
    (attributes : Option ResourceAttributes) (now : ℤ) where
  -- No rule and no delegation answers that the tenants differ.
  by_delegation-other :
      (d : Option Delegation)
      → denial_reason (returned (by_delegation policy principal tenant d request attributes now))
        ≢ some tenant_mismatch
  unfolding by_delegation denial_reason
  by_delegation-other none h = cc h
  by_delegation-other (some d) h =
      ground (arith, delegation_denial-other principal tenant d request.capability now)

  after-other :
      denial_reason (
        after clock policy principal tenant delegation request attributes now
          (scan clock policy principal tenant delegation request attributes now))
      ≢ some tenant_mismatch
  unfolding after_rules rule_decision no_grant denial_reason
  after-other h =
      elim (scan_rules-Scanned clock policy principal tenant request attributes 0 none
        policy.rules) [
          | stopped index rule same e ↦
              let k : denial_reason (
                    rule_decision policy principal tenant request index rule
                      (evaluate_condition clock principal attributes rule.condition).1)
                  ≡ some tenant_mismatch =
                rw e at h in
              ground arith
          | ran_out left missing e kept ↦ elim (Bool-cases (principal.kind == Principal.agent)) [
            | inl agent ↦ by_delegation-other delegation (rw (e, agent) at h)
            | inr other ↦ elim (Option-cases left) [
              | inl nothing ↦ absurd (ground (arith, e))
              | inr (cs, failed) ↦ absurd (ground (arith, e))
            ]
          ]
        ]

  whole-other :
      BelongsTogether policy principal tenant request attributes
      → denial_reason (whole clock policy principal tenant delegation request attributes now)
        ≢ some tenant_mismatch
  unfolding evaluate_authorization_request denial_reason
  whole-other b h = elim (Option-cases (agent_denial principal)) [
    | inl passes ↦
        let a = Admitted-of_together b passes in
        after-other (
          sym (
            ap denial_reason
              (whole-after clock policy principal tenant delegation request attributes now a))
          ∙ h)
    | inr (reason, stops) ↦ agent_denial-other principal (
        ground (
          arith,
          b.own_request,
          b.own_tenant,
          b.requested_tenant,
          b.own_policy,
          (crosses_tenant_iff tenant request.resource attributes).1 b.resource_in_tenant,
          stops,
        ))
  ]

  pub together_of :
      denial_reason (whole clock policy principal tenant delegation request attributes now)
        ≢ some tenant_mismatch
      → BelongsTogether policy principal tenant request attributes
  unfolding evaluate_authorization_request denial_reason
  together_of h = record {
    own_request = ground (arith, h);
    own_tenant = ground (arith, h);
    requested_tenant = ground (arith, h);
    own_policy = ground (arith, h);
    resource_in_tenant =
        (crosses_tenant_iff tenant request.resource attributes).0 (ground (arith, h));
  }

  -- The denial for a tenant mismatch tells exactly that principal, tenant, policy, request and
  -- resource do not belong together: it comes first, before the state of an agent, and neither a
  -- rule nor a delegation ever gives it.
  pub denial_reason-tenant_mismatch_iff :
      (denial_reason (whole clock policy principal tenant delegation request attributes now)
        ≡ some tenant_mismatch)
      ↔ ¬ BelongsTogether policy principal tenant request attributes
  denial_reason-tenant_mismatch_iff = (
    λ h b. whole-other b h,
    λ h.
        elim (reason-discrete
          (denial_reason (whole clock policy principal tenant delegation request attributes now))
          (some tenant_mismatch)) [ yes e ↦ e | no other ↦ absurd (h (together_of other)) ],
  )

  -- An admitted request whose first matching rule denies is denied by policy, with the evidence of
  -- that rule's condition, whatever delegation an agent may hold.
  pub denial_reason-deny_rule :
      Admitted policy principal tenant request attributes
      → (rule : Rule)
      → first_match clock policy principal tenant delegation request attributes now ≡ some rule
      → rule.effect ≡ Effect.deny
      → (denial_reason (whole clock policy principal tenant delegation request attributes now)
          ≡ some policy_denied)
        × (conditions (whole clock policy principal tenant delegation request attributes now)
            ≡ (evaluate_condition clock principal attributes rule.condition).1)
  unfolding after_rules rule_decision denial_reason conditions
  denial_reason-deny_rule a rule found denies =
      rw (whole-after clock policy principal tenant delegation request attributes now a)
        (elim (scan_rules-Scanned clock policy principal tenant request attributes 0 none
          policy.rules) [
            | stopped index r same e ↦
                let one : r ≡ rule = ground arith in rw (e, one) (ground arith)
            | ran_out left missing e kept ↦ cc
          ])

  pub denial_reason-unmatched :
      Admitted policy principal tenant request attributes
      → principal.kind ≢ Principal.agent
      → first_match clock policy principal tenant delegation request attributes now ≡ none
      → denial_reason (whole clock policy principal tenant delegation request attributes now) ≡ (
          if any (λ rule. rule_applies rule request) policy.rules
          then some condition_failed
          else some capability_not_granted)
  unfolding after_rules no_grant denial_reason
  denial_reason-unmatched a human missing =
      rw (whole-after clock policy principal tenant delegation request attributes now a)
        (elim (scan_rules-Scanned clock policy principal tenant request attributes 0 none
          policy.rules) [
            | stopped index r same e ↦ cc
            | ran_out left _ e kept ↦ rw e (ground (arith, kept))
          ])
