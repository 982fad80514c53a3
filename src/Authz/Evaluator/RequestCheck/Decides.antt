-- ===== src/Authz/Evaluator/RequestCheck/Decides.antt =====
-- Which requests are allowed: `evaluate_authorization_request` against a description of authority.
use multi.Prelude.{
  true, false, not, ◌&&◌, Option, none, some, ◌≡◌, refl, ◌↔◌, inl, inr, In, find, contains-In,
  contains_of_In, ◌==◌, eq_of_==, string_eq, ℤ, arith, Option-cases, and-eq-true, sym, ap, ◌∙◌,
}
use multi.Contract.Ids.{Capability}
use multi.Contract.Delegation.{Delegation, is_valid_at}
use multi.Contract.Principal
use multi.Contract.Principal.{Principal, active, PrincipalKind-discrete, principal_kind_eq}
use multi.Contract.Delegation.Status.{is_valid_at_iff}
use multi.Contract.Tenant.{TenantContext}
use multi.Authz.Policy.{
  Effect, effect_eq, Policy, Rule, ResourceRef, ResourceAttributes, AuthorizationRequest,
}
use multi.Authz.Decision.{AuthorizationDecision, is_allowed}
use multi.Authz.Evaluator.{returned, agent_denial, delegation_denial, delegation_scope_matches}
use multi.Authz.Evaluator.RequestCheck.{
  rule_decision, Scan, scan_rules, resource_tenant, crosses_tenant, by_delegation, after_rules,
  no_grant, evaluate_authorization_request,
}
use multi.Authz.Evaluator.RequestCheck.Rules.{rule_matches, stopped, ran_out, scan_rules-Scanned}

-- The resource of a request, if it has one, belongs to the tenant.
abbrev pub InTenant : TenantContext → Option ResourceRef → Option ResourceAttributes → Type 0
InTenant tenant none attributes = Unit
InTenant tenant (some resource) attributes = resource_tenant resource attributes ≡ tenant.tenant_id

-- Principal, tenant, policy and request belong together, and an agent is active.
pub record Admitted (policy : Policy) (principal : Principal) (tenant : TenantContext)
    (request : AuthorizationRequest) (attributes : Option ResourceAttributes) : Type 0 where
  pub own_request : principal.id ≡ request.principal
  pub own_tenant : principal.tenant_id ≡ tenant.tenant_id
  pub requested_tenant : tenant.tenant_id ≡ request.tenant
  pub own_policy : policy.id ≡ tenant.policy_id
  pub resource_in_tenant : InTenant tenant request.resource attributes
  pub active_agent : principal.kind ≡ Principal.agent → principal.agent_state ≡ some active

-- A delegation of the tenant to the principal, valid now, that lists the capability.
pub record Delegates (principal : Principal) (tenant : TenantContext) (d : Delegation)
    (capability : Capability) (now : ℤ) : Type 0 where
  pub own_tenant : d.tenant_id ≡ tenant.tenant_id
  pub own_delegate : d.delegate ≡ principal.id
  pub valid : is_valid_at d now ≡ true
  pub covers : In capability d.capabilities

pub agent_denial_iff :
    (p : Principal)
    → (agent_denial p ≡ none) ↔ (p.kind ≡ Principal.agent → p.agent_state ≡ some active)
unfolding agent_denial
agent_denial_iff p = (
  λ h k. ground arith,
  λ h. elim (PrincipalKind-discrete p.kind Principal.agent) [
    | yes k ↦ ground (arith, h k)
    | no other ↦ ground arith
  ],
)

pub delegation_denial_iff :
    (principal : Principal) (tenant : TenantContext) (d : Delegation) (c : Capability) (now : ℤ)
    → (delegation_denial principal tenant d c now ≡ none) ↔ Delegates principal tenant d c now
unfolding delegation_denial
delegation_denial_iff principal tenant d c now = (
  λ h. record {
    own_tenant = ground arith;
    own_delegate = ground arith;
    valid = ground arith;
    covers = contains-In d.capabilities c (ground arith);
  },
  λ s. ground (
    arith,
    s.own_tenant,
    s.own_delegate,
    s.valid,
    ((is_valid_at_iff d now).0 s.valid).unrevoked,
    contains_of_In d.capabilities c s.covers,
  ),
)

pub crosses_tenant_iff :
    (tenant : TenantContext) (r : Option ResourceRef) (a : Option ResourceAttributes)
    → (crosses_tenant tenant r a ≡ false) ↔ InTenant tenant r a
unfolding crosses_tenant
crosses_tenant_iff tenant none a = (λ h. tt, λ h. refl)
crosses_tenant_iff tenant (some r) a = (λ h. ground arith, λ h. ground arith)

module _ (clock : Option ℤ) (policy : Policy) (principal : Principal) (tenant : TenantContext)
    (delegation : Option Delegation) (request : AuthorizationRequest)
    (attributes : Option ResourceAttributes) (now : ℤ) where
  abbrev pub first_match : Option Rule
  first_match = find (rule_matches clock policy principal tenant request attributes) policy.rules

  -- The first rule that matches allows; or no rule matches, and an agent has a delegation whose
  -- scope covers the request.
  pub data Authority : Type 0 where
    by_rule : (rule : Rule) → first_match ≡ some rule → rule.effect ≡ Effect.allow → Authority
    delegated :
        (d : Delegation)
        → first_match ≡ none
        → principal.kind ≡ Principal.agent
        → delegation ≡ some d
        → Delegates principal tenant d request.capability now
        → delegation_scope_matches d.resource_scope request attributes ≡ true
        → Authority

  abbrev pub after : Scan → AuthorizationDecision
  after s = returned (after_rules policy principal tenant delegation request attributes now s)

  abbrev pub whole : AuthorizationDecision
  whole =
      evaluate_authorization_request clock (some policy) (some principal) (some tenant) delegation
        request attributes now

  abbrev pub scan : Scan
  scan = scan_rules clock policy principal tenant request attributes 0 none policy.rules

  pub Admitted-of_allowed :
      is_allowed whole ≡ true → Admitted policy principal tenant request attributes
  unfolding evaluate_authorization_request is_allowed
  Admitted-of_allowed h = record {
    own_request = ground arith;
    own_tenant = ground arith;
    requested_tenant = ground arith;
    own_policy = ground arith;
    resource_in_tenant = (crosses_tenant_iff tenant request.resource attributes).0 (ground arith);
    active_agent = (agent_denial_iff principal).0 (ground arith);
  }

  pub whole-after : Admitted policy principal tenant request attributes → whole ≡ after scan
  unfolding evaluate_authorization_request
  whole-after a = ground (
    arith,
    a.own_request,
    a.own_tenant,
    a.requested_tenant,
    a.own_policy,
    (crosses_tenant_iff tenant request.resource attributes).1 a.resource_in_tenant,
    (agent_denial_iff principal).1 a.active_agent,
  )

  allowed_by_rule :
      (rule : Rule)
      → first_match ≡ some rule
      → is_allowed (after scan) ≡ not (rule.effect == Effect.deny)
  unfolding after_rules rule_decision is_allowed
  allowed_by_rule rule found =
      elim (scan_rules-Scanned clock policy principal tenant request attributes 0 none
        policy.rules) [
          | stopped index r same e ↦
              let one : r ≡ rule = ground arith in
              ap (λ s. is_allowed (after s)) e ∙ rw one (ground arith)
          | ran_out left missing e kept ↦ cc
        ]

  delegated_of :
      (d : Option Delegation)
      → is_allowed (returned (by_delegation policy principal tenant d request attributes now))
        ≡ true
      → (e : Delegation) × (d ≡ some e)
        × Delegates principal tenant e request.capability now
        × (delegation_scope_matches e.resource_scope request attributes ≡ true)
  unfolding by_delegation is_allowed
  delegated_of none h = cc
  delegated_of (some d) h = (
    d,
    refl,
    (delegation_denial_iff principal tenant d request.capability now).0 (ground arith),
    ground arith,
  )

  of_delegated :
      (d : Delegation)
      → delegation ≡ some d
      → Delegates principal tenant d request.capability now
      → delegation_scope_matches d.resource_scope request attributes ≡ true
      → is_allowed
          (returned (by_delegation policy principal tenant delegation request attributes now))
        ≡ true
  unfolding by_delegation is_allowed
  of_delegated d given s scope =
      rw given
        (ground (arith, (delegation_denial_iff principal tenant d request.capability now).1 s))

  allowed_by_delegation :
      first_match ≡ none
      → is_allowed (after scan) ≡ (
          principal.kind == Principal.agent
          && is_allowed
              (returned (by_delegation policy principal tenant delegation request attributes now)))
  unfolding after_rules no_grant is_allowed
  allowed_by_delegation missing =
      elim (scan_rules-Scanned clock policy principal tenant request attributes 0 none
        policy.rules) [
          | stopped index r same e ↦ cc
          | ran_out left _ e kept ↦ ap (λ s. is_allowed (after s)) e ∙ ground arith
        ]

  authority_of_allowed :
      is_allowed whole ≡ true → Admitted policy principal tenant request attributes → Authority
  authority_of_allowed h a = elim (Option-cases first_match) [
    | inl missing ↦
        let k = sym (allowed_by_delegation missing) ∙ sym (ap is_allowed (whole-after a)) ∙ h in
        let (agent, allows) = and-eq-true _ _ k in
        let (d, given, ds, scope) = delegated_of delegation allows in
        delegated d missing (eq_of_== principal.kind Principal.agent agent) given ds scope
    | inr (rule, found) ↦
        let k = sym (allowed_by_rule rule found) ∙ sym (ap is_allowed (whole-after a)) ∙ h in
        by_rule rule found (ground arith)
  ]

  allowed_of_authority :
      Admitted policy principal tenant request attributes → Authority → is_allowed whole ≡ true
  allowed_of_authority a (by_rule rule found allows) =
      ap is_allowed (whole-after a) ∙ allowed_by_rule rule found ∙ ground arith
  allowed_of_authority a (delegated d missing agent given s scope) =
      ap is_allowed (whole-after a)
      ∙ allowed_by_delegation missing
      ∙ ground (arith, of_delegated d given s scope)

-- Policy, principal and tenant are there, belong together, and give the request its authority.
pub record Authorized (clock : Option ℤ) (policy? : Option Policy) (principal? : Option Principal)
    (tenant? : Option TenantContext) (delegation : Option Delegation)
    (request : AuthorizationRequest) (attributes : Option ResourceAttributes) (now : ℤ)
    : Type 0 where
  pub policy : Policy
  pub principal : Principal
  pub tenant : TenantContext
  pub policy_given : policy? ≡ some policy
  pub principal_given : principal? ≡ some principal
  pub tenant_given : tenant? ≡ some tenant
  pub admitted : Admitted policy principal tenant request attributes
  pub authority : Authority clock policy principal tenant delegation request attributes now

Authorized-of_allowed :
    (clock : Option ℤ) (po : Option Policy) (pr : Option Principal) (te : Option TenantContext)
    (delegation : Option Delegation) (request : AuthorizationRequest)
    (attributes : Option ResourceAttributes) (now : ℤ)
    → is_allowed (evaluate_authorization_request clock po pr te delegation request attributes now)
      ≡ true
    → Authorized clock po pr te delegation request attributes now
unfolding evaluate_authorization_request is_allowed
Authorized-of_allowed clock none pr te d request a now h = cc
Authorized-of_allowed clock (some po) none te d request a now h = cc
Authorized-of_allowed clock (some po) (some pr) none d request a now h = cc
Authorized-of_allowed clock (some po) (some pr) (some te) d request a now h =
    let ad = Admitted-of_allowed clock po pr te d request a now h in
    record {
      policy = po;
      principal = pr;
      tenant = te;
      policy_given = refl;
      principal_given = refl;
      tenant_given = refl;
      admitted = ad;
      authority = authority_of_allowed clock po pr te d request a now h ad;
    }

-- A request is allowed exactly if policy, principal and tenant are there and belong together and
-- to the request, its resource is of the tenant, an agent is active, and either the first rule
-- that matches is an allowing one, or no rule matches and an agent holds a valid delegation of
-- the capability whose scope covers the request.
pub evaluate_authorization_request_iff :
    (clock : Option ℤ) (po : Option Policy) (pr : Option Principal) (te : Option TenantContext)
    (delegation : Option Delegation) (request : AuthorizationRequest)
    (attributes : Option ResourceAttributes) (now : ℤ)
    → (is_allowed (evaluate_authorization_request clock po pr te delegation request attributes now)
        ≡ true)
      ↔ Authorized clock po pr te delegation request attributes now
evaluate_authorization_request_iff clock po pr te d request a now = (
  Authorized-of_allowed clock po pr te d request a now,
  λ w.
      rw (w.policy_given, w.principal_given, w.tenant_given)
        (allowed_of_authority clock w.policy w.principal w.tenant d request a now w.admitted
          w.authority),
)
