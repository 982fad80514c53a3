-- ===== src/Runtime/Picking.antt =====
-- crates/runtime/src/mesh.rs, `pick_delegation`: the delegation that an authorization considers.
use multi.Prelude.{
  Bool, true, ◌&&◌, Option, none, some, List, ◌≡◌, refl, ◌∙◌, ◌↔◌, inl, inr, In, find, find-In,
  any_of_In, is_some-find, contains, contains-In, contains_of_In, string_eq, ℤ, ok, arith,
  Option-cases, and-eq-true,
}
use multi.Contract.Ids.{Capability}
use multi.Contract.Delegation.{Delegation, is_valid_at}
use multi.Contract.Principal
use multi.Contract.Principal.{Principal, active}
use multi.Contract.Tenant.{TenantContext}
use multi.Authz.Policy.{Policy}
use multi.Authz.Decision.{CapabilityEnvelope, is_allowed, allows}
use multi.Authz.Evaluator.{evaluate_with_delegations}
use multi.Authz.Evaluator.Envelope.{evaluate_with_delegations_iff, evaluate_with_delegations-guards}
use multi.Authz.Evaluator.CapabilityCheck.{evaluate_capability}
use multi.Authz.Evaluator.CapabilityCheck.Allows.{
  claimed, delegated, evaluate_capability_iff, evaluate_capability-allows, inactive_of,
}

-- `or_else`
abbrev pub or_else {ℓ} : {A : Type ℓ} → Option A → Option A → Option A
or_else none b = b
or_else (some a) b = some a

abbrev live_for : Capability → ℤ → Delegation → Bool
live_for c now d = is_valid_at d now && contains d.capabilities c

unfoldable pub pick_delegation : List Delegation → Capability → ℤ → Option Delegation
pick_delegation ds c now =
    or_else (find (λ d. is_valid_at d now && contains d.capabilities c) ds)
      (find (λ d. contains d.capabilities c) ds)

pick_delegation-In :
    (ds : List Delegation) (c : Capability) (now : ℤ) (d : Delegation)
    → pick_delegation ds c now ≡ some d
    → In d ds
unfolding pick_delegation
pick_delegation-In ds c now d h = elim (Option-cases (find (live_for c now) ds)) [
  | inl e ↦ (find-In (λ d. contains d.capabilities c) ds d (rw e at h)).0
  | inr (f, e) ↦ (find-In (live_for c now) ds d (e ∙ rw e at h)).0
]

-- Where one of the delegations is valid and lists the capability, such a one is picked.
pick_delegation-live :
    (ds : List Delegation) (c : Capability) (now : ℤ) (d : Delegation)
    → In d ds
    → live_for c now d ≡ true
    → (e : Delegation) × (pick_delegation ds c now ≡ some e) × In e ds × (live_for c now e ≡ true)
unfolding pick_delegation
pick_delegation-live ds c now d m h = elim (Option-cases (find (live_for c now) ds)) [
  | inl e ↦
      let found = is_some-find (live_for c now) ds ∙ any_of_In (live_for c now) ds d m h in
      absurd (ground (arith, e, found))
  | inr (f, e) ↦ let (n, live) = find-In (live_for c now) ds f e in (f, rw e refl, n, live)
]

-- For an active agent, and delegations that are all of the tenant and to the agent, the check of a
-- capability with the delegation that is picked allows exactly what the envelope of the same
-- delegations holds.
pub pick_delegation-allows :
    (clock : Option ℤ) (policy : Policy) (principal : Principal) (tenant : TenantContext)
    (ds : List Delegation) (c : Capability) (now : ℤ) (e : CapabilityEnvelope)
    → principal.kind ≡ Principal.agent
    → principal.agent_state ≡ some active
    → ((d : Delegation) → In d ds → (d.tenant_id ≡ tenant.tenant_id) × (d.delegate ≡ principal.id))
    → evaluate_with_delegations clock policy principal tenant ds now ≡ ok e
    → (is_allowed (
          evaluate_capability clock
            (some policy)
            (some principal)
            (some tenant)
            (pick_delegation ds c now)
            c
            now)
        ≡ true)
      ↔ (allows e c ≡ true)
pick_delegation-allows clock policy principal tenant ds c now e agent state own h =
    let whole =
      evaluate_with_delegations_iff clock policy principal tenant ds now c e
        (inactive_of principal (λ k. state)) h in
    let (own_tenant, own_policy) =
      evaluate_with_delegations-guards clock policy principal tenant ds now e h in
    (
      evaluate_capability-allows clock policy principal tenant (pick_delegation ds c now) ds c now e
          (pick_delegation-In ds c now) h,
      λ k.
          (evaluate_capability_iff clock policy principal tenant (pick_delegation ds c now) c now).1
            (
              record {
                own_tenant = own_tenant;
                own_policy = own_policy;
                active_agent = λ a. state;
              },
              elim (whole.0 k) [
                | inl b ↦ claimed b
                | inr b ↦
                    let (d, picked, m, live) =
                      pick_delegation-live ds c now b.delegation b.listed
                        (rw (b.valid, contains_of_In b.delegation.capabilities c b.covers) refl) in
                    let (valid, covers) = and-eq-true _ _ live in
                    delegated d agent picked (record {
                      own_tenant = (own d m).0;
                      own_delegate = (own d m).1;
                      valid = valid;
                      covers = contains-In d.capabilities c covers;
                    })
              ],
            ),
    )
