-- ===== src/Authz/Evaluator/CapabilityCheck/Allows.antt =====
-- Which capabilities `evaluate_capability` allows, and that the envelope holds all of them.
use multi.Prelude.{
  Bool, true, false, Option, none, some, List, [], ◌∷◌, ◌≡◌, refl, ◌↔◌, inl, inr, In, any, ◌==◌,
  eq_of_==, string_eq, is_some, ℤ, ok, arith, Bool-cases,
}
use multi.Contract.Ids.{Capability}
use multi.Contract.Delegation.{Delegation}
use multi.Contract.Principal
use multi.Contract.Principal.{Principal, active, principal_kind_eq, agent_state_eq}
use multi.Contract.Tenant.{TenantContext}
use multi.Authz.Policy.{Policy, Rule}
use multi.Authz.Decision.{AuthorizationDecision, CapabilityEnvelope, is_allowed, allows}
use multi.Authz.Condition.{condition_matches}
use multi.Authz.Evaluator.{returned, is_inactive_agent, evaluate_with_delegations}
use multi.Authz.Evaluator.Envelope.{
  ByClaim, rule_covers, ByClaim-of, of_ByClaim, evaluate_with_delegations_iff,
}
use multi.Authz.Evaluator.RequestCheck.Decides.{Delegates, agent_denial_iff, delegation_denial_iff}
use multi.Authz.Evaluator.CapabilityCheck.{scan_capability, by_delegation, evaluate_capability}

-- Principal, tenant and policy belong together, and an agent is active.
pub record Admits (policy : Policy) (principal : Principal) (tenant : TenantContext) : Type 0 where
  pub own_tenant : principal.tenant_id ≡ tenant.tenant_id
  pub own_policy : policy.id ≡ tenant.policy_id
  pub active_agent : principal.kind ≡ Principal.agent → principal.agent_state ≡ some active

module _ (clock : Option ℤ) (policy : Policy) (principal : Principal) (tenant : TenantContext)
    (c : Capability) where
  -- Claims meet a rule for the capability, or an agent has a valid delegation of it.
  pub data Holds (delegation : Option Delegation) (now : ℤ) : Type 0 where
    claimed : ByClaim clock policy principal c → Holds delegation now
    delegated :
        (d : Delegation)
        → principal.kind ≡ Principal.agent
        → delegation ≡ some d
        → Delegates principal tenant d c now
        → Holds delegation now

  abbrev pub allowing : Option AuthorizationDecision → Bool
  allowing none = false
  allowing (some d) = is_allowed d

  -- The loop stops at an allowing decision, or at none.
  pub scan_capability-any :
      (rules : List Rule)
      → (is_some (scan_capability clock policy principal tenant c rules)
          ≡ any (rule_covers policy principal tenant c clock) rules)
        × (allowing (scan_capability clock policy principal tenant c rules)
            ≡ any (rule_covers policy principal tenant c clock) rules)
  unfolding scan_capability is_allowed condition_matches
  scan_capability-any [] = (refl, refl)
  scan_capability-any (rule ∷ rules) = ground (arith, scan_capability-any rules)

  delegated_of :
      (d : Option Delegation) (now : ℤ)
      → is_allowed (returned (by_delegation policy principal tenant d c now)) ≡ true
      → (e : Delegation) × (d ≡ some e) × Delegates principal tenant e c now
  unfolding by_delegation is_allowed
  delegated_of none now h = cc
  delegated_of (some d) now h =
      (d, refl, (delegation_denial_iff principal tenant d c now).0 (ground arith))

  of_delegated :
      (d : Delegation) (now : ℤ)
      → Delegates principal tenant d c now
      → is_allowed (returned (by_delegation policy principal tenant (some d) c now)) ≡ true
  unfolding by_delegation is_allowed
  of_delegated d now s = ground (arith, (delegation_denial_iff principal tenant d c now).1 s)

  module _ (delegation : Option Delegation) (now : ℤ) where
    abbrev whole : AuthorizationDecision
    whole = evaluate_capability clock (some policy) (some principal) (some tenant) delegation c now

    allowed_of : Admits policy principal tenant → Holds delegation now → is_allowed whole ≡ true
    unfolding evaluate_capability is_allowed
    allowed_of a (claimed b) = ground (
      arith,
      a.own_tenant,
      a.own_policy,
      (agent_denial_iff principal).1 a.active_agent,
      scan_capability-any policy.rules,
      of_ByClaim policy principal tenant c clock b,
    )
    allowed_of a (delegated d agent given s) = ground (
      arith,
      a.own_tenant,
      a.own_policy,
      (agent_denial_iff principal).1 a.active_agent,
      scan_capability-any policy.rules,
      of_delegated d now s,
    )

    Admits-of : is_allowed whole ≡ true → Admits policy principal tenant
    unfolding evaluate_capability is_allowed
    Admits-of h = record {
      own_tenant = ground arith;
      own_policy = ground arith;
      active_agent = (agent_denial_iff principal).0 (ground arith);
    }

    unclaimed :
        any (rule_covers policy principal tenant c clock) policy.rules ≡ false
        → is_allowed whole ≡ true
        → (principal.kind == Principal.agent) ≡ true
          × (is_allowed (returned (by_delegation policy principal tenant delegation c now)) ≡ true)
    unfolding evaluate_capability is_allowed
    unclaimed no_rule h = ground (arith, scan_capability-any policy.rules)

    Holds-of : is_allowed whole ≡ true → Holds delegation now
    Holds-of h =
        elim (Bool-cases (any (rule_covers policy principal tenant c clock) policy.rules)) [
          | inl rules ↦ claimed (ByClaim-of policy principal tenant c clock rules)
          | inr no_rule ↦
              let (agent, k) = unclaimed no_rule h in
              let (d, given, s) = delegated_of delegation now k in
              delegated d (eq_of_== principal.kind Principal.agent agent) given s
        ]

-- A capability is allowed exactly if principal, tenant and policy belong together, an agent is
-- active, and the principal's claims meet a rule for the capability or an agent has a delegation
-- of the tenant to it that is valid now and lists the capability.
pub evaluate_capability_iff :
    (clock : Option ℤ) (policy : Policy) (principal : Principal) (tenant : TenantContext)
    (delegation : Option Delegation) (c : Capability) (now : ℤ)
    → (is_allowed
          (evaluate_capability clock (some policy) (some principal) (some tenant) delegation c now)
        ≡ true)
      ↔ (Admits policy principal tenant × Holds clock policy principal tenant c delegation now)
evaluate_capability_iff clock policy principal tenant delegation c now = (
  λ h. (
    Admits-of clock policy principal tenant c delegation now h,
    Holds-of clock policy principal tenant c delegation now h,
  ),
  λ (a, k). allowed_of clock policy principal tenant c delegation now a k,
)

pub inactive_of :
    (p : Principal)
    → (p.kind ≡ Principal.agent → p.agent_state ≡ some active)
    → is_inactive_agent p ≡ false
unfolding is_inactive_agent
inactive_of p h = elim (Bool-cases (p.kind == Principal.agent)) [
  | inl agent ↦ ground (arith, h (eq_of_== p.kind Principal.agent agent))
  | inr other ↦ ground arith
]

-- What the check of one capability allows with a delegation among those that the envelope is made
-- from, the envelope holds.
pub evaluate_capability-allows :
    (clock : Option ℤ) (policy : Policy) (principal : Principal) (tenant : TenantContext)
    (delegation : Option Delegation) (ds : List Delegation) (c : Capability) (now : ℤ)
    (e : CapabilityEnvelope)
    → ((d : Delegation) → delegation ≡ some d → In d ds)
    → evaluate_with_delegations clock policy principal tenant ds now ≡ ok e
    → is_allowed
        (evaluate_capability clock (some policy) (some principal) (some tenant) delegation c now)
      ≡ true
    → allows e c ≡ true
evaluate_capability-allows clock policy principal tenant delegation ds c now e among h allowed =
    let (a, k) =
      (evaluate_capability_iff clock policy principal tenant delegation c now).0 allowed in
    let inactive = inactive_of principal a.active_agent in
    (evaluate_with_delegations_iff clock policy principal tenant ds now c e inactive h).1 (elim k [
      | claimed b ↦ inl b
      | delegated d agent given s ↦ inr (record {
        delegation = d;
        listed = among d given;
        own_tenant = s.own_tenant;
        own_delegate = s.own_delegate;
        valid = s.valid;
        covers = s.covers;
      })
    ])
