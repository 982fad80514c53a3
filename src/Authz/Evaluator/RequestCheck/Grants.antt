-- ===== src/Authz/Evaluator/RequestCheck/Grants.antt =====
-- What the grant of an allowed request says of the request.
use multi.Prelude.{
  ℕ, true, Option, none, some, List, [], ◌∷◌, ◌++◌, ◌≡◌, refl, ◌∙◌, sym, ap, inl, inr, ◌==◌,
  eq_of_==, ◌<>◌, string_eq, ℤ, arith, Bool-cases,
}
use multi.Contract.Delegation.{Delegation}
use multi.Contract.Principal
use multi.Contract.Principal.{Principal, principal_kind_eq}
use multi.Contract.Tenant.{TenantContext}
use multi.Authz.Policy.{Effect, Policy, Rule, ResourceAttributes, AuthorizationRequest}
use multi.Authz.Decision.{
  AuthorizationDecision, ConditionEvidence, GrantedCapability, grant, is_allowed, claim, delegated,
}
use multi.Authz.Condition.{claim_basis}
use multi.Authz.Evaluator.{returned, claim_grant, delegated_grant}
use multi.Authz.Evaluator.RequestCheck.{
  rule_decision, by_delegation, after_rules, no_grant, evaluate_authorization_request,
}
use multi.Authz.Evaluator.RequestCheck.Rules.{stopped, ran_out, scan_rules-Scanned}
use multi.Authz.Evaluator.RequestCheck.Decides.{
  Admitted, first_match, after, scan, whole-after, Admitted-of_allowed,
}

module _ (clock : Option ℤ) (policy : Policy) (principal : Principal) (tenant : TenantContext)
    (delegation : Option Delegation) (request : AuthorizationRequest)
    (attributes : Option ResourceAttributes) (now : ℤ) where
  -- The grant rests on the claims that the first matching rule of the policy reads; or no rule
  -- matches, and it rests on the delegation of an agent and its whole chain.
  pub data Basis (g : GrantedCapability) : Type 0 where
    on_claims :
        (rule : Rule)
        → first_match clock policy principal tenant delegation request attributes now ≡ some rule
        → rule.effect ≡ Effect.allow
        → g.authority ≡ claim
        → g.claim_basis ≡ claim_basis rule.condition
        → g.delegation_id ≡ none
        → g.delegated_by ≡ none
        → g.delegation_chain ≡ []
        → Basis g
    on_delegation :
        (d : Delegation)
        → first_match clock policy principal tenant delegation request attributes now ≡ none
        → principal.kind ≡ Principal.agent
        → delegation ≡ some d
        → g.authority ≡ delegated
        → g.claim_basis ≡ ("delegation:" <> d.delegator) ∷ []
        → g.delegation_id ≡ some d.id
        → g.delegated_by ≡ some d.delegator
        → g.delegation_chain ≡ d.chain ++ d.id ∷ []
        → Basis g

  -- The grant names the request's principal, tenant and capability, and the policy.
  pub record IsFor (g : GrantedCapability) : Type 0 where
    pub capability : g.capability ≡ request.capability
    pub principal_id : g.principal_id ≡ request.principal
    pub principal_kind : g.principal_kind ≡ principal.kind
    pub tenant_id : g.tenant_id ≡ request.tenant
    pub policy_id : g.policy_id ≡ policy.id
    pub basis : Basis g

grant-is_allowed :
    (d : AuthorizationDecision) (g : GrantedCapability) → grant d ≡ some g → is_allowed d ≡ true
unfolding grant is_allowed
grant-is_allowed (AuthorizationDecision.allow h r a m c e) g k = refl
grant-is_allowed (AuthorizationDecision.deny d k r a p m c e) g h = cc

module _ (clock : Option ℤ) (policy : Policy) (principal : Principal) (tenant : TenantContext)
    (delegation : Option Delegation) (request : AuthorizationRequest)
    (attributes : Option ResourceAttributes) (now : ℤ) (g : GrantedCapability)
    (admitted : Admitted policy principal tenant request attributes) where
  open admitted use {own_request, own_tenant, requested_tenant, own_policy}

  claim_grant-IsFor :
      (rule : Rule)
      → first_match clock policy principal tenant delegation request attributes now ≡ some rule
      → rule.effect ≡ Effect.allow
      → g ≡ claim_grant policy principal tenant rule request.capability
      → IsFor clock policy principal tenant delegation request attributes now g
  unfolding claim_grant
  claim_grant-IsFor rule first allows e = rw e (record {
    capability = refl;
    principal_id = own_request;
    principal_kind = refl;
    tenant_id = requested_tenant;
    policy_id = refl;
    basis = on_claims rule first allows refl refl refl refl refl;
  })

  delegated_grant-IsFor :
      (d : Delegation)
      → first_match clock policy principal tenant delegation request attributes now ≡ none
      → principal.kind ≡ Principal.agent
      → delegation ≡ some d
      → g ≡ delegated_grant policy principal tenant d request.capability
      → IsFor clock policy principal tenant delegation request attributes now g
  unfolding delegated_grant
  delegated_grant-IsFor d missing agent given e = rw e (record {
    capability = refl;
    principal_id = own_request;
    principal_kind = refl;
    tenant_id = requested_tenant;
    policy_id = refl;
    basis = on_delegation d missing agent given refl refl refl refl refl;
  })

  rule_decision-grant :
      (index : ℕ) (rule : Rule) (cs : List ConditionEvidence)
      → grant (rule_decision policy principal tenant request index rule cs) ≡ some g
      → (rule.effect ≡ Effect.allow)
        × (g ≡ claim_grant policy principal tenant rule request.capability)
  unfolding rule_decision grant
  rule_decision-grant index rule cs h = ground arith

  by_delegation-grant :
      (d : Option Delegation)
      → grant (returned (by_delegation policy principal tenant d request attributes now)) ≡ some g
      → (e : Delegation) × (d ≡ some e)
        × (g ≡ delegated_grant policy principal tenant e request.capability)
  unfolding by_delegation grant
  by_delegation-grant none h = cc
  by_delegation-grant (some d) h = (d, refl, ground arith)

  after-IsFor :
      grant (
          after clock policy principal tenant delegation request attributes now
            (scan clock policy principal tenant delegation request attributes now))
        ≡ some g
      → IsFor clock policy principal tenant delegation request attributes now g
  unfolding after_rules no_grant grant
  after-IsFor h =
      elim (scan_rules-Scanned clock policy principal tenant request attributes 0 none
        policy.rules) [
          | stopped index rule same e ↦
              let (allows, made) = rule_decision-grant index rule _ (rw e at h) in
              claim_grant-IsFor rule same allows made
          | ran_out left missing e kept ↦ elim (Bool-cases (principal.kind == Principal.agent)) [
            | inl agent ↦
                let (d, given, same) = by_delegation-grant delegation (rw (e, agent) at h) in
                delegated_grant-IsFor d missing (eq_of_== principal.kind Principal.agent agent)
                  given same
            | inr other ↦ absurd (ground (arith, e))
          ]
        ]

-- The grant of an allowed request names the principal, the tenant and the capability that were
-- asked for, and the policy. It rests on the claims that the first matching rule reads, an allowing
-- one, with no delegation; or no rule matches, the principal is an agent, and it rests on the given
-- delegation, with its delegator and the whole chain down to it.
pub evaluate_authorization_request-IsFor :
    (clock : Option ℤ) (policy : Policy) (principal : Principal) (tenant : TenantContext)
    (delegation : Option Delegation) (request : AuthorizationRequest)
    (attributes : Option ResourceAttributes) (now : ℤ) (g : GrantedCapability)
    → grant (
        evaluate_authorization_request clock
          (some policy)
          (some principal)
          (some tenant)
          delegation
          request
          attributes
          now)
      ≡ some g
    → IsFor clock policy principal tenant delegation request attributes now g
evaluate_authorization_request-IsFor clock policy principal tenant delegation request attributes now
      g h =
    let allowed = grant-is_allowed _ g h in
    let a =
      Admitted-of_allowed clock policy principal tenant delegation request attributes now allowed in
    after-IsFor clock policy principal tenant delegation request attributes now g a (
      sym (ap grant (whole-after clock policy principal tenant delegation request attributes now a))
      ∙ h)
