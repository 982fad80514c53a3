-- ===== src/Authz/Evaluator/RequestCheck/Reasons.antt =====
-- What the reason of a denial tells of the request.
use multi.Prelude.{
  Bool, if◌then◌else◌, true, false, Option, none, some, ◌≡◌, ◌≢◌, refl, ◌∙◌, sym, ap, any,
  string_eq, ℤ, arith,
}
use multi.Contract.Delegation.{Delegation}
use multi.Contract.Principal
use multi.Contract.Principal.{
  Principal, AgentState, principal_kind_eq, PrincipalKind-discrete, created, active, suspended,
  revoked, retired,
}
use multi.Contract.Tenant.{TenantContext}
use multi.Authz.Policy.{Effect, Policy, Rule, ResourceAttributes, AuthorizationRequest}
use multi.Authz.Reason.{
  DenialReason, tenant_mismatch, policy_denied, condition_failed, capability_not_granted,
  delegation_missing, delegation_scope_denied,
}
use multi.Authz.Policy.{effect_eq}
use multi.Authz.Decision.{denial_reason}
use multi.Authz.Evaluator.{returned, agent_denial, delegation_scope_matches}
use multi.Authz.Evaluator.RequestCheck.{
  rule_applies, by_delegation, after_rules, evaluate_authorization_request,
}
use multi.Authz.Evaluator.RequestCheck.Rules.{stopped, ran_out, scan_rules-Scanned}
use multi.Authz.Evaluator.RequestCheck.Decides.{
  Admitted, Delegates, first_match, whole, whole-after, crosses_tenant_iff, delegation_denial_iff,
}
use multi.Authz.Evaluator.RequestCheck.Denials.{
  BelongsTogether, denial_reason-tenant_mismatch_iff, denial_reason-deny_rule,
  denial_reason-unmatched,
}
use multi.Authz.Evaluator.RequestCheck.Failures.{
  AgentFails, agent_denial-of_fails, DelegationFails, delegation_denial-of_fails,
}

some_if :
    (b : Bool) (p q : DenialReason) → (if b then some p else some q) ≡ some (if b then p else q)
some_if true p q = refl
some_if false p q = refl

module _ (clock : Option ℤ) (policy : Policy) (principal : Principal) (tenant : TenantContext)
    (delegation : Option Delegation) (request : AuthorizationRequest)
    (attributes : Option ResourceAttributes) (now : ℤ) where
  abbrev pub reason_of_whole : Option DenialReason
  reason_of_whole =
      denial_reason (whole clock policy principal tenant delegation request attributes now)

  abbrev pub matching : Option Rule
  matching = first_match clock policy principal tenant delegation request attributes now

  -- What a reason tells of the request.
  pub data Explains (r : DenialReason) : Type 0 where
    tenants_differ :
        r ≡ tenant_mismatch
        → ¬ BelongsTogether policy principal tenant request attributes
        → Explains r
    inactive_agent :
        BelongsTogether policy principal tenant request attributes
        → principal.kind ≡ Principal.agent
        → AgentFails principal.agent_state r
        → Explains r
    denied_by_rule :
        r ≡ policy_denied
        → Admitted policy principal tenant request attributes
        → (rule : Rule) → matching ≡ some rule
        → rule.effect ≡ Effect.deny
        → Explains r
    without_rule :
        r ≡ (
          if any (λ rule. rule_applies rule request) policy.rules
          then condition_failed
          else capability_not_granted)
        → Admitted policy principal tenant request attributes
        → principal.kind ≢ Principal.agent
        → matching ≡ none
        → Explains r
    without_delegation :
        r ≡ delegation_missing
        → Admitted policy principal tenant request attributes
        → principal.kind ≡ Principal.agent
        → matching ≡ none
        → delegation ≡ none
        → Explains r
    by_delegation_that_fails :
        Admitted policy principal tenant request attributes
        → principal.kind ≡ Principal.agent
        → matching ≡ none
        → (d : Delegation) → delegation ≡ some d
        → DelegationFails principal tenant d request.capability now r
        → Explains r
    out_of_scope :
        r ≡ delegation_scope_denied
        → Admitted policy principal tenant request attributes
        → principal.kind ≡ Principal.agent
        → matching ≡ none
        → (d : Delegation) → delegation ≡ some d
        → Delegates principal tenant d request.capability now
        → delegation_scope_matches d.resource_scope request attributes ≡ false
        → Explains r

  pub inactive :
      (r : DenialReason)
      → BelongsTogether policy principal tenant request attributes
      → agent_denial principal ≡ some r
      → reason_of_whole ≡ some r
  unfolding evaluate_authorization_request denial_reason
  inactive r b stops = ground (
    arith,
    b.own_request,
    b.own_tenant,
    b.requested_tenant,
    b.own_policy,
    (crosses_tenant_iff tenant request.resource attributes).1 b.resource_in_tenant,
    stops,
  )

  -- Without a matching rule an agent is answered by the delegation.
  agent_without_rule :
      Admitted policy principal tenant request attributes
      → principal.kind ≡ Principal.agent
      → matching ≡ none
      → reason_of_whole
        ≡ denial_reason
            (returned (by_delegation policy principal tenant delegation request attributes now))
  unfolding after_rules PrincipalKind-discrete
  agent_without_rule a agent missing =
      rw (whole-after clock policy principal tenant delegation request attributes now a)
        (elim (scan_rules-Scanned clock policy principal tenant request attributes 0 none
          policy.rules) [
            | stopped index rule same e ↦ cc
            | ran_out left _ e kept ↦ rw (e, agent) refl
          ])

  delegated_reason :
      (d : Delegation) (r : DenialReason)
      → DelegationFails principal tenant d request.capability now r
      → denial_reason
          (returned (by_delegation policy principal tenant (some d) request attributes now))
        ≡ some r
  unfolding by_delegation denial_reason
  delegated_reason d r fails =
      rw (delegation_denial-of_fails principal tenant d request.capability now r fails) refl

  scope_reason :
      (d : Delegation)
      → Delegates principal tenant d request.capability now
      → delegation_scope_matches d.resource_scope request attributes ≡ false
      → denial_reason
          (returned (by_delegation policy principal tenant (some d) request attributes now))
        ≡ some delegation_scope_denied
  unfolding by_delegation denial_reason
  scope_reason d ds outside =
      rw ((delegation_denial_iff principal tenant d request.capability now).1 ds, outside) refl

  reason_of_none :
      denial_reason (returned (by_delegation policy principal tenant none request attributes now))
      ≡ some delegation_missing
  unfolding by_delegation denial_reason
  reason_of_none = refl

  pub reason-of_Explains : (r : DenialReason) → Explains r → reason_of_whole ≡ some r
  reason-of_Explains r (tenants_differ e h) =
      (denial_reason-tenant_mismatch_iff clock policy principal tenant delegation request attributes
          now).1
        h
      ∙ ap some (sym e)
  reason-of_Explains r (inactive_agent b agent fails) =
      inactive r b (agent_denial-of_fails principal r agent fails)
  reason-of_Explains r (denied_by_rule e a rule found denies) =
      (denial_reason-deny_rule clock policy principal tenant delegation request attributes now a
        rule found denies).0
      ∙ ap some (sym e)
  reason-of_Explains r (without_rule e a human missing) =
      denial_reason-unmatched clock policy principal tenant delegation request attributes now a
        human missing
      ∙ some_if _ condition_failed capability_not_granted
      ∙ ap some (sym e)
  reason-of_Explains r (without_delegation e a agent missing given) =
      agent_without_rule a agent missing ∙ (rw given reason_of_none) ∙ ap some (sym e)
  reason-of_Explains r (by_delegation_that_fails a agent missing d given fails) =
      agent_without_rule a agent missing ∙ (rw given (delegated_reason d r fails))
  reason-of_Explains r (out_of_scope e a agent missing d given ds outside) =
      agent_without_rule a agent missing ∙ (rw given (scope_reason d ds outside)) ∙ ap some (sym e)
