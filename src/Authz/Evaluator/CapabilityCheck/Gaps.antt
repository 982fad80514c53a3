-- ===== src/Authz/Evaluator/CapabilityCheck/Gaps.antt =====
-- Where the engine's three entry points differ.
use multi.Prelude.{
  true, false, Option, none, some, List, [], ◌∷◌, ◌≡◌, refl, ◌∙◌, ap, inl, inr, any, string_eq,
  find, ℤ, ok, arith, Bool-cases,
}
use multi.Contract.Ids.{Capability}
use multi.Contract.Delegation.{Delegation}
use multi.Contract.Principal
use multi.Contract.Principal.{Principal, active, PrincipalKind, principal_kind_eq}
use multi.Contract.Tenant.{TenantContext}
use multi.Authz.Policy.{Effect, Policy, Rule, AuthorizationRequest}
use multi.Authz.Reason.{policy_denied, capability_not_granted}
use multi.Authz.Decision.{CapabilityEnvelope, is_allowed, denial_reason, allows}
use multi.Authz.Condition.{evaluate_condition, condition_matches}
use multi.Authz.Evaluator.{evaluate_with_delegations}
use multi.Authz.Evaluator.Envelope.{
  ByClaim, rule_covers, ByClaim-of, evaluate_with_delegations_iff, evaluate_with_delegations-guards,
}
use multi.Authz.Evaluator.RequestCheck.{rule_applies, evaluate_authorization_request}
use multi.Authz.Evaluator.RequestCheck.Rules.{rule_matches}
use multi.Authz.Evaluator.RequestCheck.Decides.{Admitted, Delegates, first_match}
use multi.Authz.Evaluator.RequestCheck.Denials.{denial_reason-deny_rule}
use multi.Authz.Evaluator.CapabilityCheck.{evaluate_capability}
use multi.Authz.Evaluator.CapabilityCheck.Allows.{
  claimed, evaluate_capability_iff, evaluate_capability-allows, inactive_of, scan_capability-any,
}

capability_of_applies :
    (rule : Rule) (request : AuthorizationRequest)
    → rule_applies rule request ≡ true
    → rule.capability ≡ request.capability
unfolding rule_applies
capability_of_applies rule request h = ground arith

-- A rule that denies is read by the check of a request alone. Where it is the first rule, is for
-- the request, and its condition is met without resource attributes, the request is denied by
-- policy, and yet the check of the capability allows it and the envelope holds it.
pub deny_rule_gap :
    (clock : Option ℤ) (policy : Policy) (principal : Principal) (tenant : TenantContext)
    (delegation : Option Delegation) (request : AuthorizationRequest) (now : ℤ) (rule : Rule)
    (rest : List Rule) (e : CapabilityEnvelope)
    → Admitted policy principal tenant request none
    → policy.rules ≡ rule ∷ rest
    → rule.effect ≡ Effect.deny
    → rule_applies rule request ≡ true
    → (evaluate_condition clock principal none rule.condition).0 ≡ true
    → evaluate_with_delegations clock policy principal tenant [] now ≡ ok e
    → (denial_reason (
          evaluate_authorization_request clock
            (some policy)
            (some principal)
            (some tenant)
            delegation
            request
            none
            now)
        ≡ some policy_denied)
      × (is_allowed (
            evaluate_capability clock
              (some policy)
              (some principal)
              (some tenant)
              none
              request.capability
              now)
          ≡ true)
      × (allows e request.capability ≡ true)
unfolding condition_matches
deny_rule_gap clock policy principal tenant delegation request now rule rest e a rules denies
      applies met h =
    let first : first_match clock policy principal tenant delegation request none now ≡ some rule =
      ap (find (rule_matches clock policy principal tenant request none)) rules
      ∙ rw (applies, met) in
    let allowed =
      (evaluate_capability_iff clock policy principal tenant none request.capability now).1 (
        record {
          own_tenant = a.own_tenant;
          own_policy = a.own_policy;
          active_agent = a.active_agent;
        },
        claimed (record {
          rule = rule;
          listed = rw rules (inl refl);
          covers = capability_of_applies rule request applies;
          met = met;
        }),
      ) in
    (
      (denial_reason-deny_rule clock policy principal tenant delegation request none now a rule
          first denies).0,
      allowed,
      evaluate_capability-allows clock policy principal tenant none [] request.capability now e
          (λ d given. cc) h allowed,
    )

service_denied :
    (clock : Option ℤ) (policy : Policy) (principal : Principal) (tenant : TenantContext)
    (d : Option Delegation) (c : Capability) (now : ℤ)
    → principal.kind ≡ Principal.service
    → principal.tenant_id ≡ tenant.tenant_id
    → policy.id ≡ tenant.policy_id
    → any (rule_covers policy principal tenant c clock) policy.rules ≡ false
    → denial_reason (evaluate_capability clock (some policy) (some principal) (some tenant) d c now)
      ≡ some capability_not_granted
unfolding evaluate_capability denial_reason
service_denied clock policy principal tenant d c now kind own_tenant own_policy no_rule =
    ground (arith, scan_capability-any clock policy principal tenant c policy.rules)

-- A delegation may name a service, and then the envelope of the service holds the capabilities of
-- a valid delegation; but the check of such a capability, which no rule gives to the service,
-- denies it even with that delegation at hand.
pub service_delegation_gap :
    (clock : Option ℤ) (policy : Policy) (principal : Principal) (tenant : TenantContext)
    (d : Delegation) (c : Capability) (now : ℤ) (e : CapabilityEnvelope)
    → principal.kind ≡ Principal.service
    → Delegates principal tenant d c now
    → ¬ ByClaim clock policy principal c
    → evaluate_with_delegations clock policy principal tenant (d ∷ []) now ≡ ok e
    → (allows e c ≡ true)
      × (denial_reason
            (evaluate_capability clock (some policy) (some principal) (some tenant) (some d) c now)
          ≡ some capability_not_granted)
service_delegation_gap clock policy principal tenant d c now e kind s unclaimed h =
    let (own_tenant, own_policy) =
      evaluate_with_delegations-guards clock policy principal tenant (d ∷ []) now e h in
    let no_rule : any (rule_covers policy principal tenant c clock) policy.rules ≡ false =
      elim (Bool-cases (any (rule_covers policy principal tenant c clock) policy.rules)) [
        | inl k ↦ absurd (unclaimed (ByClaim-of policy principal tenant c clock k))
        | inr k ↦ k
      ] in
    (
      (evaluate_with_delegations_iff clock policy principal tenant (d ∷ []) now c e
            (inactive_of principal (λ agent. cc)) h).1
          (inr (record {
            delegation = d;
            listed = inl refl;
            own_tenant = s.own_tenant;
            own_delegate = s.own_delegate;
            valid = s.valid;
            covers = s.covers;
          })),
      service_denied clock policy principal tenant (some d) c now kind own_tenant own_policy
          no_rule,
    )
