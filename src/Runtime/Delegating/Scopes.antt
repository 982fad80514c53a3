-- ===== src/Runtime/Delegating/Scopes.antt =====
-- Which scope and lifetime a delegation may have.
use multi.Prelude.{
  Bool, true, false, Option, none, List, [], ◌≡◌, ◌≢◌, refl, ◌∙◌, sym, ap, subst, In, ◌==◌,
  string_eq, ℤ, Result, ok, arith,
}
use multi.Contract.Ids.{Capability}
use multi.Contract.Scope.{ResourceScope}
use multi.Contract.Delegation.{Delegation, is_valid_at}
use multi.Contract.Principal
use multi.Contract.Principal.{Principal, principal_kind_eq}
use multi.Contract.Tenant.{TenantContext}
use multi.Authz.Policy.{Policy, AuthorizationRequest, ResourceAttributes}
use multi.Authz.Evaluator.{delegation_scope_matches}
use multi.Authz.Evaluator.Narrowing.{delegation_scope_matches-narrows}
use multi.Runtime.Errors.{AuthError}
use multi.Runtime.Stores.{MeshStores, principal, delegations_for}
use multi.Runtime.Delegating.{
  DelegationRequest, new_delegation, delegator_of, delegation_of_request,
}
use multi.Runtime.Delegating.Parts.{
  HasParent-pass_capabilities, of_Granted, Granted-of, delegator_of-principal, Chained-of,
  of_Chained, pass_capabilities_eq, check_request_mono,
}

-- A capability that an agent passes on is in each case one that a delegation to it, valid now, lists
-- and whose scope the new scope narrows: whatever request the new scope matches, that scope matches.
pub delegation_of_request-narrows :
    (clock : Option ℤ) (agents : Bool) (policy : Result AuthError Policy) (s : MeshStores)
    (tenant : TenantContext) (request : DelegationRequest) (now : ℤ) (d : Delegation)
    (delegator : Principal) (held : List Delegation) (c : Capability)
    (wanted : AuthorizationRequest) (attributes : Option ResourceAttributes)
    → principal s tenant request.delegator ≡ ok delegator
    → delegator.kind ≡ Principal.agent
    → delegations_for s tenant delegator.id ≡ ok held
    → delegation_of_request clock agents policy s tenant request now ≡ ok d
    → In c d.capabilities
    → delegation_scope_matches d.resource_scope wanted attributes ≡ true
    → (parent : Delegation) × In parent held
      × (is_valid_at parent now ≡ true)
      × In c parent.capabilities
      × (delegation_scope_matches parent.resource_scope wanted attributes ≡ true)
unfolding new_delegation
delegation_of_request-narrows clock agents policy s tenant request now d delegator held c wanted
      attributes found agent holds h m matched =
    let g = Granted-of clock agents policy s tenant request now d h in
    let one : g.delegator ≡ delegator =
      ground (arith, delegator_of-principal s tenant request g.delegator g.delegator_found) in
    let k = Chained-of clock policy s tenant request now g.delegator g.chain g.chained in
    let same : k.held ≡ held = ground (arith, one, k.held_found) in
    let caps : d.capabilities ≡ request.capabilities = ap (λ d. d.capabilities) (sym g.made) in
    let scope : d.resource_scope ≡ request.resource_scope =
      ap (λ d. d.resource_scope) (sym g.made) in
    let q =
      HasParent-pass_capabilities request g.delegator k.envelope k.held now [] g.chain
        request.capabilities c (ap (λ p. p.kind) one ∙ agent) k.passed (rw caps at m) in
    (
      q.parent,
      subst (λ l. In q.parent l) same q.listed,
      q.valid,
      q.covers,
      delegation_scope_matches-narrows request.resource_scope q.parent.resource_scope wanted
          attributes q.narrows (rw scope at matched),
    )

-- For a delegator that is not an agent the scope and the expiry are granted as they are asked for:
-- whatever is granted is granted as well with any other scope, and without an expiry.
pub delegation_of_request-unbounded :
    (clock : Option ℤ) (agents : Bool) (policy : Result AuthError Policy) (s : MeshStores)
    (tenant : TenantContext) (request : DelegationRequest) (now : ℤ) (d : Delegation)
    (delegator : Principal) (scope : ResourceScope)
    → principal s tenant request.delegator ≡ ok delegator
    → delegator.kind ≢ Principal.agent
    → delegation_of_request clock agents policy s tenant request now ≡ ok d
    → delegation_of_request clock agents policy s tenant
        (record request { resource_scope = scope; expires_at = none })
        now
      ≡ ok (record d { resource_scope = scope; expires_at = none })
unfolding delegator_of new_delegation
delegation_of_request-unbounded clock agents policy s tenant request now d delegator scope found
      other h =
    let g = Granted-of clock agents policy s tenant request now d h in
    let asked : DelegationRequest = record request { resource_scope = scope; expires_at = none } in
    let one : g.delegator ≡ delegator =
      ground (arith, delegator_of-principal s tenant request g.delegator g.delegator_found) in
    let no_agent : (g.delegator.kind == Principal.agent) ≡ false = ground arith in
    let c = Chained-of clock policy s tenant request now g.delegator g.chain g.chained in
    let rescoped : Delegation → Delegation =
      λ d. record d { resource_scope = scope; expires_at = none } in
    of_Granted clock agents policy s tenant asked now _ (record {
      delegator = g.delegator;
      chain = g.chain;
      checked = check_request_mono agents request now scope g.checked;
      delegator_found = g.delegator_found;
      chained = of_Chained clock policy s tenant asked now g.delegator g.chain (record {
        policy = c.policy;
        held = c.held;
        envelope = c.envelope;
        policy_found = c.policy_found;
        held_found = c.held_found;
        evaluated = c.evaluated;
        passed =
            pass_capabilities_eq request asked g.delegator c.envelope c.held now []
              request.capabilities no_agent refl
            ∙ c.passed;
      });
      made = ap rescoped g.made;
    })
