-- ===== src/Runtime/Delegating/Parts.antt =====
-- The parts that a granted delegation went through.
use multi.Prelude.{
  String, Bool, true, false, ◌&&◌, Option, none, some, List, [], ◌∷◌, ◌≡◌, refl, ◌∙◌, ap, inl, inr,
  In, find-In, contains, contains-In, ◌==◌, string_eq, ℤ, Result, ok, err, arith, Bool-cases,
  and-eq-true, bind-ok, ◌>>=◌,
}
use multi.Contract.Ids.{Capability, DelegationId}
use multi.Contract.Scope.{ResourceScope, is_subset_of}
use multi.Contract.Delegation.{Delegation, is_valid_at}
use multi.Contract.Principal
use multi.Contract.Principal.{Principal, principal_kind_eq}
use multi.Contract.Tenant.{TenantContext}
use multi.Authz.Policy.{Policy}
use multi.Authz.Decision.{CapabilityEnvelope, allows}
use multi.Authz.Evaluator.{evaluate_with_delegations}
use multi.Authz.Reason.{policy_not_found}
use multi.Runtime.Errors.{AuthError, auth_error, map_err, policy_evaluation}
use multi.Runtime.Stores.{MeshStores, principal, delegations_for}
use multi.Runtime.Delegating.{
  DelegationRequest, parent_of, narrow_parent, exceeds_authority, pass_capability,
  pass_capabilities, new_delegation, check_request, delegator_of, chain_of, expires_unused,
  delegation_of_request,
}

-- A delegation to the delegator, valid now, lists the capability and reaches what the scope does.
pub record HasParent (held : List Delegation) (scope : ResourceScope) (now : ℤ) (c : Capability)
    : Type 0 where
  pub parent : Delegation
  pub listed : In parent held
  pub valid : is_valid_at parent now ≡ true
  pub covers : In c parent.capabilities
  pub narrows : is_subset_of scope parent.resource_scope ≡ true

module _ (request : DelegationRequest) (delegator : Principal) (envelope : CapabilityEnvelope)
    (held : List Delegation) (now : ℤ) where
  HasParent-narrow_parent :
      (chain after : List DelegationId) (c : Capability) (o : Option Delegation)
      → parent_of held c now ≡ o
      → narrow_parent request held now chain c ≡ ok after
      → HasParent held request.resource_scope now c
  unfolding narrow_parent parent_of
  HasParent-narrow_parent chain after c none e h = cc (rw e at h)
  HasParent-narrow_parent chain after c (some d) e h =
      let (m, live) = find-In (λ d. is_valid_at d now && contains d.capabilities c) held d e in
      let (valid, covers) = and-eq-true _ _ live in
      record {
        parent = d;
        listed = m;
        valid = valid;
        covers = contains-In d.capabilities c covers;
        narrows = ground (arith, rw e at h);
      }

  HasParent-pass_capability :
      (chain after : List DelegationId) (c : Capability)
      → delegator.kind ≡ Principal.agent
      → pass_capability request delegator envelope held now chain c ≡ ok after
      → HasParent held request.resource_scope now c
  unfolding pass_capability
  HasParent-pass_capability chain after c agent h =
      HasParent-narrow_parent chain after c (parent_of held c now) refl (ground arith)

  pub HasParent-pass_capabilities :
      (chain after : List DelegationId) (cs : List Capability) (c : Capability)
      → delegator.kind ≡ Principal.agent
      → pass_capabilities request delegator envelope held now chain cs ≡ ok after
      → In c cs
      → HasParent held request.resource_scope now c
  unfolding pass_capabilities
  HasParent-pass_capabilities chain after [] c agent h m = absurd m
  HasParent-pass_capabilities chain after (k ∷ cs) c agent h m =
      let (longer, here, rest) =
        bind-ok (pass_capability request delegator envelope held now chain k)
          (λ longer. pass_capabilities request delegator envelope held now longer cs) after h in
      elim m [
        | inl e ↦ rw (← e) (HasParent-pass_capability chain longer k agent here)
        | inr n ↦ HasParent-pass_capabilities longer after cs c agent rest n
      ]

-- The parts that a granted request went through.
pub record Granted (clock : Option ℤ) (agents : Bool) (policy : Result AuthError Policy)
    (s : MeshStores) (tenant : TenantContext) (request : DelegationRequest) (now : ℤ)
    (d : Delegation) : Type 0 where
  pub delegator : Principal
  pub chain : List DelegationId
  pub checked : check_request agents request now ≡ ok tt
  pub delegator_found : delegator_of s tenant request ≡ ok delegator
  pub chained : chain_of clock policy s tenant request now delegator ≡ ok chain
  pub made : new_delegation tenant request chain ≡ d

module _ (clock : Option ℤ) (agents : Bool) (policy : Result AuthError Policy) (s : MeshStores)
    (tenant : TenantContext) (request : DelegationRequest) (now : ℤ) (d : Delegation) where
  pub of_Granted :
      Granted clock agents policy s tenant request now d
      → delegation_of_request clock agents policy s tenant request now ≡ ok d
  unfolding delegation_of_request
  of_Granted g = rw (g.checked, g.delegator_found, g.chained, g.made) refl

  pub Granted-of :
      delegation_of_request clock agents policy s tenant request now ≡ ok d
      → Granted clock agents policy s tenant request now d
  unfolding delegation_of_request
  Granted-of h =
      let last : Principal → Result AuthError Delegation = λ p.
        chain_of clock policy s tenant request now p >>= λ chain.
        ok (new_delegation tenant request chain) in
      let (unit, checked, h1) =
        bind-ok (check_request agents request now) (λ _. delegator_of s tenant request >>= last) d
          h in
      let (p, found, h2) = bind-ok (delegator_of s tenant request) last d h1 in
      let (chain, chained, h3) =
        bind-ok (chain_of clock policy s tenant request now p)
          (λ chain. ok (new_delegation tenant request chain)) d h2 in
      record {
        delegator = p;
        chain = chain;
        checked = checked;
        delegator_found = found;
        chained = chained;
        made = ground arith;
      }

pub delegator_of-principal :
    (s : MeshStores) (tenant : TenantContext) (request : DelegationRequest) (p : Principal)
    → delegator_of s tenant request ≡ ok p
    → principal s tenant request.delegator ≡ ok p
unfolding delegator_of
delegator_of-principal s tenant request p h =
    let (q, found, h1) = bind-ok (principal s tenant request.delegator) _ p h in
    let (r, delegate, h2) = bind-ok (principal s tenant request.delegate) _ p h1 in
    found ∙ ap ok (ground arith)

-- The parts that a chain was made from.
pub record Chained (clock : Option ℤ) (policy? : Result AuthError Policy) (s : MeshStores)
    (tenant : TenantContext) (request : DelegationRequest) (now : ℤ) (p : Principal)
    (chain : List DelegationId) : Type 0 where
  pub policy : Policy
  pub held : List Delegation
  pub envelope : CapabilityEnvelope
  pub policy_found : policy? ≡ ok policy
  pub held_found : delegations_for s tenant p.id ≡ ok held
  pub evaluated : evaluate_with_delegations clock policy p tenant held now ≡ ok envelope
  pub passed : pass_capabilities request p envelope held now [] request.capabilities ≡ ok chain

module _ (clock : Option ℤ) (policy : Result AuthError Policy) (s : MeshStores)
    (tenant : TenantContext) (request : DelegationRequest) (now : ℤ) (p : Principal)
    (chain : List DelegationId) where
  abbrev to_error : String → AuthError
  to_error = auth_error policy_evaluation policy_not_found

  evaluated_of :
      (r : Result String CapabilityEnvelope) (envelope : CapabilityEnvelope)
      → map_err to_error r ≡ ok envelope
      → r ≡ ok envelope
  evaluated_of (ok e) envelope h = ground arith
  evaluated_of (err e) envelope h = cc

  pub Chained-of :
      chain_of clock policy s tenant request now p ≡ ok chain
      → Chained clock policy s tenant request now p chain
  unfolding chain_of
  Chained-of h =
      let (po, policy_found, h1) =
        bind-ok policy
          (λ po. delegations_for s tenant p.id >>= λ held.
            map_err to_error (evaluate_with_delegations clock po p tenant held now) >>= λ e.
            pass_capabilities request p e held now [] request.capabilities)
          chain h in
      let (held, held_found, h2) =
        bind-ok (delegations_for s tenant p.id)
          (λ held. map_err to_error (evaluate_with_delegations clock po p tenant held now) >>= λ e.
            pass_capabilities request p e held now [] request.capabilities)
          chain h1 in
      let (e, evaluated, h3) =
        bind-ok (map_err to_error (evaluate_with_delegations clock po p tenant held now))
          (λ e. pass_capabilities request p e held now [] request.capabilities) chain h2 in
      record {
        policy = po;
        held = held;
        envelope = e;
        policy_found = policy_found;
        held_found = held_found;
        evaluated = evaluated_of _ e evaluated;
        passed = h3;
      }

  pub of_Chained :
      Chained clock policy s tenant request now p chain
      → chain_of clock policy s tenant request now p ≡ ok chain
  unfolding chain_of
  of_Chained c = rw (c.policy_found, c.held_found, c.evaluated) c.passed

pub pass_capabilities_eq :
    (request other : DelegationRequest) (p : Principal) (e : CapabilityEnvelope)
    (held : List Delegation) (now : ℤ) (chain : List DelegationId) (cs : List Capability)
    → (p.kind == Principal.agent) ≡ false
    → other.delegator ≡ request.delegator
    → pass_capabilities other p e held now chain cs
      ≡ pass_capabilities request p e held now chain cs
unfolding pass_capabilities pass_capability exceeds_authority
pass_capabilities_eq request other p e held now chain [] h same = refl
pass_capabilities_eq request other p e held now chain (c ∷ cs) h same =
    elim (Bool-cases (allows e c)) [
      | inl holds ↦ rw (holds, h) (pass_capabilities_eq request other p e held now chain cs h same)
      | inr lacks ↦ rw (lacks, same) refl
    ]

pub check_request_mono :
    (agents : Bool) (request : DelegationRequest) (now : ℤ) (scope : ResourceScope)
    → check_request agents request now ≡ ok tt
    → check_request agents (record request { resource_scope = scope; expires_at = none }) now
      ≡ ok tt
unfolding check_request expires_unused
check_request_mono agents request now scope h = ground arith
