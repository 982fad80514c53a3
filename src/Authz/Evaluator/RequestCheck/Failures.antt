-- ===== src/Authz/Evaluator/RequestCheck/Failures.antt =====
-- Why an agent or a delegation is refused.
use multi.Prelude.{
  true, false, Option, none, some, In, contains-In, contains_of_In, ◌≡◌, ◌≢◌, refl, ◌⊎◌, inl, inr,
  is_some, string_eq, ◌==◌, eq_of_==, ne_of_==, ℤ, arith, Bool-cases, contains,
}
use multi.Contract.Ids.{Capability}
use multi.Contract.Delegation.{Delegation, is_valid_at}
use multi.Contract.Principal
use multi.Contract.Principal.{
  Principal, AgentState, principal_kind_eq, PrincipalKind-discrete, created, active, suspended,
  revoked, retired,
}
use multi.Contract.Tenant.{TenantContext}
use multi.Authz.Reason.{
  DenialReason, unknown_principal, agent_revoked, agent_suspended, invalid_delegation,
  revoked_delegation, expired_delegation, delegation_missing,
}
use multi.Authz.Policy.{effect_eq}
use multi.Authz.Evaluator.{agent_denial, agent_state_denial, delegation_denial}

-- Why an agent in the state is refused.
pub data AgentFails (state : Option AgentState) (r : DenialReason) : Type 0 where
  is_suspended : r ≡ agent_suspended → state ≡ some suspended → AgentFails state r
  has_ended :
      r ≡ agent_revoked → (state ≡ some revoked) ⊎ (state ≡ some retired) → AgentFails state r
  not_started : r ≡ unknown_principal → (state ≡ some created) ⊎ (state ≡ none) → AgentFails state r

agent_state_denial-fails :
    (s : Option AgentState) (r : DenialReason) → agent_state_denial s ≡ some r → AgentFails s r
unfolding agent_state_denial
agent_state_denial-fails (some active) r h = cc h
agent_state_denial-fails (some revoked) r h = has_ended (cc h) (inl refl)
agent_state_denial-fails (some retired) r h = has_ended (cc h) (inr refl)
agent_state_denial-fails (some suspended) r h = is_suspended (cc h) refl
agent_state_denial-fails (some created) r h = not_started (cc h) (inl refl)
agent_state_denial-fails none r h = not_started (cc h) (inr refl)

pub agent_denial-of_fails :
    (p : Principal) (r : DenialReason)
    → p.kind ≡ Principal.agent
    → AgentFails p.agent_state r
    → agent_denial p ≡ some r
unfolding agent_denial agent_state_denial
agent_denial-of_fails p r k (is_suspended e s) = rw (k, s, e) (ground arith)
agent_denial-of_fails p r k (has_ended e (inl s)) = rw (k, s, e) (ground arith)
agent_denial-of_fails p r k (has_ended e (inr s)) = rw (k, s, e) (ground arith)
agent_denial-of_fails p r k (not_started e (inl s)) = rw (k, s, e) (ground arith)
agent_denial-of_fails p r k (not_started e (inr s)) = rw (k, s, e) (ground arith)

pub agent_denial-fails :
    (p : Principal) (r : DenialReason)
    → agent_denial p ≡ some r
    → (p.kind ≡ Principal.agent) × AgentFails p.agent_state r
unfolding agent_denial
agent_denial-fails p r h = elim (Bool-cases (p.kind == Principal.agent)) [
  | inl agent ↦ (
    eq_of_== p.kind Principal.agent agent,
    agent_state_denial-fails p.agent_state r (rw agent at h),
  )
  | inr other ↦ absurd (ground arith)
]

-- Why a delegation does not serve the principal.
pub data DelegationFails (principal : Principal) (tenant : TenantContext) (d : Delegation)
    (c : Capability) (now : ℤ) (r : DenialReason) : Type 0 where
  foreign :
      r ≡ invalid_delegation
      → (d.tenant_id ≢ tenant.tenant_id) ⊎ (d.delegate ≢ principal.id)
      → DelegationFails principal tenant d c now r
  is_revoked :
      r ≡ revoked_delegation
      → d.tenant_id ≡ tenant.tenant_id
      → d.delegate ≡ principal.id
      → is_some d.revoked_at ≡ true
      → DelegationFails principal tenant d c now r
  has_expired :
      r ≡ expired_delegation
      → d.tenant_id ≡ tenant.tenant_id
      → d.delegate ≡ principal.id
      → is_some d.revoked_at ≡ false
      → is_valid_at d now ≡ false
      → DelegationFails principal tenant d c now r
  lacks :
      r ≡ delegation_missing
      → d.tenant_id ≡ tenant.tenant_id
      → d.delegate ≡ principal.id
      → is_some d.revoked_at ≡ false
      → is_valid_at d now ≡ true
      → ¬ In c d.capabilities
      → DelegationFails principal tenant d c now r

pub delegation_denial-fails :
    (principal : Principal) (tenant : TenantContext) (d : Delegation) (c : Capability) (now : ℤ)
    (r : DenialReason)
    → delegation_denial principal tenant d c now ≡ some r
    → DelegationFails principal tenant d c now r
unfolding delegation_denial
delegation_denial-fails principal tenant d c now r h =
    elim (Bool-cases (d.tenant_id == tenant.tenant_id)) [
      | inr t ↦ foreign (ground arith) (inl (ne_of_== d.tenant_id tenant.tenant_id t))
      | inl t ↦ elim (Bool-cases (d.delegate == principal.id)) [
        | inr p ↦ foreign (ground arith) (inr (ne_of_== d.delegate principal.id p))
        | inl p ↦
            let own = eq_of_== d.tenant_id tenant.tenant_id t in
            let to = eq_of_== d.delegate principal.id p in
            elim (Bool-cases (is_some d.revoked_at)) [
              | inl gone ↦ is_revoked (ground arith) own to gone
              | inr kept ↦ elim (Bool-cases (is_valid_at d now)) [
                | inr old ↦ has_expired (ground arith) own to kept old
                | inl valid ↦
                    lacks (ground arith) own to kept valid
                      (λ i. let k = contains_of_In d.capabilities c i in ground arith)
              ]
            ]
      ]
    ]

pub delegation_denial-of_fails :
    (principal : Principal) (tenant : TenantContext) (d : Delegation) (c : Capability) (now : ℤ)
    (r : DenialReason)
    → DelegationFails principal tenant d c now r
    → delegation_denial principal tenant d c now ≡ some r
unfolding delegation_denial
delegation_denial-of_fails principal tenant d c now r (foreign e (inl t)) = ground arith
delegation_denial-of_fails principal tenant d c now r (foreign e (inr t)) = ground arith
delegation_denial-of_fails principal tenant d c now r (is_revoked e t p gone) = ground arith
delegation_denial-of_fails principal tenant d c now r (has_expired e t p kept old) = ground arith
delegation_denial-of_fails principal tenant d c now r (lacks e t p kept valid absent) =
    elim (Bool-cases (contains d.capabilities c)) [
      | inl there ↦ absurd (absent (contains-In d.capabilities c there))
      | inr missing ↦ ground arith
    ]
