-- ===== src/Authz/Evaluator/Envelope.antt =====
-- Which capabilities an envelope holds.
use multi.Prelude.{
  Bool, true, false, ◌&&◌, ◌||◌, Option, List, [], ◌∷◌, ◌++◌, ◌≡◌, refl, ◌∙◌, ◌↔◌, ◌⊎◌, inl, inr,
  In, any, any-append, any-In, any_of_In, is_some-find, contains, contains-In, contains_of_In, ◌==◌,
  ==_refl, eq_of_==, string_eq, if◌then◌else◌, ℤ, ok, arith, Bool-cases, and-eq-true,
}
use multi.Contract.Ids.{Capability}
use multi.Contract.Delegation.{Delegation, is_valid_at}
use multi.Contract.Principal.{Principal}
use multi.Contract.Tenant.{TenantContext}
use multi.Authz.Policy.{Policy, Rule}
use multi.Authz.Decision.{GrantedCapability, CapabilityEnvelope, allows}
use multi.Authz.Condition.{condition_matches}
use multi.Authz.Evaluator.{
  delegated_grant, claim_grant, is_inactive_agent, rule_grants, granted_already, push_delegated,
  is_live_for, push_delegations, evaluate_with_delegations,
}

-- The principal's own claims meet a rule for the capability.
pub record ByClaim (clock : Option ℤ) (policy : Policy) (principal : Principal) (c : Capability)
    : Type 0 where
  pub rule : Rule
  pub listed : In rule policy.rules
  pub covers : rule.capability ≡ c
  pub met : condition_matches clock principal rule.condition ≡ true

-- A delegation of this tenant to this principal, valid now, lists the capability.
pub record ByDelegation (principal : Principal) (tenant : TenantContext) (ds : List Delegation)
    (now : ℤ) (c : Capability) : Type 0 where
  pub delegation : Delegation
  pub listed : In delegation ds
  pub own_tenant : delegation.tenant_id ≡ tenant.tenant_id
  pub own_delegate : delegation.delegate ≡ principal.id
  pub valid : is_valid_at delegation now ≡ true
  pub covers : In c delegation.capabilities

module _ (policy : Policy) (principal : Principal) (tenant : TenantContext) (c : Capability) where
  abbrev pub rule_covers : Option ℤ → Rule → Bool
  rule_covers clock rule = condition_matches clock principal rule.condition && rule.capability == c

  abbrev delegation_covers : ℤ → Delegation → Bool
  delegation_covers now d = is_live_for principal tenant now d && contains d.capabilities c

  granted-rule_grants :
      (clock : Option ℤ) (rules : List Rule)
      → granted_already (rule_grants clock policy principal tenant rules) c
        ≡ any (rule_covers clock) rules
  unfolding rule_grants claim_grant
  granted-rule_grants clock [] = refl
  granted-rule_grants clock (rule ∷ rules) = ground (arith, granted-rule_grants clock rules)

  granted-push :
      (d : Delegation) (granted : List GrantedCapability) (k : Capability)
      → granted_already
          (if granted_already granted k
            then granted
            else granted ++ delegated_grant policy principal tenant d k ∷ [])
          c
        ≡ (granted_already granted c || k == c)
  unfolding delegated_grant
  granted-push d granted k = ground (
    arith,
    any-append (λ g. g.capability == c) granted (delegated_grant policy principal tenant d k ∷ []),
  )

  granted-push_delegated :
      (d : Delegation) (caps : List Capability) (granted : List GrantedCapability)
      → granted_already (push_delegated policy principal tenant d granted caps) c
        ≡ (granted_already granted c || contains caps c)
  unfolding push_delegated
  granted-push_delegated d [] granted = ground arith
  granted-push_delegated d (k ∷ caps) granted =
      granted-push_delegated d caps _ ∙ rw (granted-push d granted k) (ground arith)

  granted-push_delegations :
      (now : ℤ) (ds : List Delegation) (granted : List GrantedCapability)
      → granted_already (push_delegations policy principal tenant now granted ds) c
        ≡ (granted_already granted c || any (delegation_covers now) ds)
  unfolding push_delegations
  granted-push_delegations now [] granted = ground arith
  granted-push_delegations now (d ∷ ds) granted =
      elim (Bool-cases (is_live_for principal tenant now d)) [
        | inl live ↦ rw live (
            granted-push_delegations now ds _
            ∙ rw (granted-push_delegated d d.capabilities granted) (ground arith))
        | inr dead ↦ rw dead (granted-push_delegations now ds granted)
      ]

  -- The envelope of a principal that is no inactive agent, as one equation.
  allows-envelope :
      (clock : Option ℤ) (ds : List Delegation) (now : ℤ) (e : CapabilityEnvelope)
      → is_inactive_agent principal ≡ false
      → evaluate_with_delegations clock policy principal tenant ds now ≡ ok e
      → allows e c ≡ (any (rule_covers clock) policy.rules || any (delegation_covers now) ds)
  unfolding evaluate_with_delegations allows
  allows-envelope clock ds now e active h =
      is_some-find (λ g. g.capability == c) e.granted_capabilities
      ∙ ground (
        arith,
        granted-push_delegations now ds (rule_grants clock policy principal tenant policy.rules),
        granted-rule_grants clock policy.rules,
      )

  pub ByClaim-of :
      (clock : Option ℤ)
      → any (rule_covers clock) policy.rules ≡ true
      → ByClaim clock policy principal c
  ByClaim-of clock h =
      let (rule, m, k) = any-In (rule_covers clock) policy.rules h in
      let (met, same) = and-eq-true _ _ k in
      record { rule = rule; listed = m; covers = eq_of_== rule.capability c same; met = met }

  pub of_ByClaim :
      (clock : Option ℤ)
      → ByClaim clock policy principal c
      → any (rule_covers clock) policy.rules ≡ true
  of_ByClaim clock b =
      any_of_In (rule_covers clock) policy.rules b.rule b.listed (rw (b.met, b.covers) (==_refl c))

  ByDelegation-of :
      (now : ℤ) (ds : List Delegation)
      → any (delegation_covers now) ds ≡ true
      → ByDelegation principal tenant ds now c
  unfolding is_live_for
  ByDelegation-of now ds h =
      let (d, m, k) = any-In (delegation_covers now) ds h in
      record {
        delegation = d;
        listed = m;
        own_tenant = ground arith;
        own_delegate = ground arith;
        valid = ground arith;
        covers = contains-In d.capabilities c (ground arith);
      }

  of_ByDelegation :
      (now : ℤ) (ds : List Delegation)
      → ByDelegation principal tenant ds now c
      → any (delegation_covers now) ds ≡ true
  unfolding is_live_for
  of_ByDelegation now ds b = any_of_In (delegation_covers now) ds b.delegation b.listed (
      ground (
        arith,
        b.own_tenant,
        b.own_delegate,
        b.valid,
        contains_of_In b.delegation.capabilities c b.covers,
      ))

-- For a principal that is no inactive agent the envelope allows exactly the capabilities that a
-- rule grants whose condition its claims meet, or that a delegation lists which is of the tenant,
-- to the principal, and valid now.
pub evaluate_with_delegations_iff :
    (clock : Option ℤ) (policy : Policy) (principal : Principal) (tenant : TenantContext)
    (ds : List Delegation) (now : ℤ) (c : Capability) (e : CapabilityEnvelope)
    → is_inactive_agent principal ≡ false
    → evaluate_with_delegations clock policy principal tenant ds now ≡ ok e
    → (allows e c ≡ true)
      ↔ (ByClaim clock policy principal c ⊎ ByDelegation principal tenant ds now c)
evaluate_with_delegations_iff clock policy principal tenant ds now c e active h =
    let same = allows-envelope policy principal tenant c clock ds now e active h in
    (
      λ k. elim (Bool-cases (any (rule_covers policy principal tenant c clock) policy.rules)) [
        | inl claimed ↦ inl (ByClaim-of policy principal tenant c clock claimed)
        | inr unclaimed ↦ inr (ByDelegation-of policy principal tenant c now ds (ground arith))
      ],
      elim [
        | inl b ↦ let k = of_ByClaim policy principal tenant c clock b in ground arith
        | inr b ↦ let k = of_ByDelegation policy principal tenant c now ds b in ground arith
      ],
    )

-- An envelope is made only of a principal and a policy of the tenant.
pub evaluate_with_delegations-guards :
    (clock : Option ℤ) (policy : Policy) (principal : Principal) (tenant : TenantContext)
    (ds : List Delegation) (now : ℤ) (e : CapabilityEnvelope)
    → evaluate_with_delegations clock policy principal tenant ds now ≡ ok e
    → (principal.tenant_id ≡ tenant.tenant_id) × (policy.id ≡ tenant.policy_id)
unfolding evaluate_with_delegations
evaluate_with_delegations-guards clock policy principal tenant ds now e h =
    (ground arith, ground arith)
