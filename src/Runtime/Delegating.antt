-- ===== src/Runtime/Delegating.antt =====
-- crates/runtime/src/mesh.rs, `delegate`, from the tenant that was found to the stored delegation.
-- `agents` is `config.agents`, and `policy` is what `self.policy(&tenant)` returns.
pub mod Parts
pub mod Scopes
use multi.Prelude.{
  String, ◌<>◌, Bool, true, false, not, ◌&&◌, ◌||◌, Option, none, some, List, [], ◌∷◌, ◌++◌, find,
  contains, ◌==◌, string_eq, if◌then◌else◌, ℤ, leb_ℤ, Result, ok, err, ◌>>=◌, ◌>>◌, ok_or,
}
use multi.Contract.Ids.{Capability, DelegationId, PrincipalId}
use multi.Contract.Scope.{ResourceScope, is_empty, is_subset_of}
use multi.Contract.Delegation.{Delegation, is_valid_at}
use multi.Contract.Principal
use multi.Contract.Principal.{Principal, principal_kind_eq}
use multi.Contract.Tenant.{TenantContext}
use multi.Authz.Policy.{Policy}
use multi.Authz.Reason.{
  invalid_delegation, policy_not_found, delegation_exceeds_authority, delegation_scope_denied,
}
use multi.Authz.Decision.{CapabilityEnvelope, allows}
use multi.Authz.Evaluator.{return_if, evaluate_with_delegations}
use multi.Storage.Delegations.{create_delegation}
use multi.Runtime.Errors.{
  AuthError, auth_error, delegation_error, map_err, delegation_management, policy_evaluation,
}
use multi.Runtime.Stores.{MeshStores, principal, delegations_for, assert_principal_is_usable}

pub record DelegationRequest : Type 0 where
  pub id : DelegationId
  pub delegator : PrincipalId
  pub delegate : PrincipalId
  pub capabilities : List Capability
  pub resource_scope : ResourceScope
  pub issued_at : ℤ
  pub expires_at : Option ℤ

-- `expires_at <= request.issued_at || expires_at <= now`, false without an expiry
unfoldable pub expires_unused : Option ℤ → ℤ → ℤ → Bool
expires_unused none issued_at now = false
expires_unused (some expires_at) issued_at now = leb_ℤ expires_at issued_at || leb_ℤ expires_at now

unfoldable pub exceeds_authority : DelegationRequest → Capability → AuthError
unfolding auth_error
exceeds_authority request capability =
    auth_error delegation_management delegation_exceeds_authority
      ("delegator `" <> request.delegator <> "` does not hold `" <> capability <> "`")

-- `if chain.is_empty() { chain = parent.chain.clone(); chain.push(parent.id.clone()); }`
unfoldable pub extend_chain : List DelegationId → Delegation → List DelegationId
extend_chain [] parent = parent.chain ++ parent.id ∷ []
extend_chain (id ∷ ids) parent = id ∷ ids

-- The delegation of an agent that a capability is passed on from.
unfoldable pub parent_of : List Delegation → Capability → ℤ → Option Delegation
parent_of held capability now =
    find (λ d. is_valid_at d now && contains d.capabilities capability) held

unfoldable pub narrow_parent :
    DelegationRequest
    → List Delegation
    → ℤ
    → List DelegationId
    → Capability
    → Result AuthError (List DelegationId)
unfolding exceeds_authority parent_of extend_chain
narrow_parent request held now chain capability = do
  parent ← ok_or (parent_of held capability now) (exceeds_authority request capability)
  return_if (not (is_subset_of request.resource_scope parent.resource_scope)) (
      auth_error delegation_management delegation_scope_denied
        "delegation scope must narrow the delegator's authority")
  ok (extend_chain chain parent)

-- The body of the loop over the capabilities.
unfoldable pub pass_capability :
    DelegationRequest
    → Principal
    → CapabilityEnvelope
    → List Delegation
    → ℤ
    → List DelegationId
    → Capability
    → Result AuthError (List DelegationId)
unfolding narrow_parent exceeds_authority
pass_capability request delegator envelope held now chain capability =
    if not (allows envelope capability)
    then err (exceeds_authority request capability)
    else if delegator.kind == Principal.agent
    then narrow_parent request held now chain capability
    else ok chain

unfoldable pub pass_capabilities :
    DelegationRequest
    → Principal
    → CapabilityEnvelope
    → List Delegation
    → ℤ
    → List DelegationId
    → List Capability
    → Result AuthError (List DelegationId)
unfolding pass_capability
pass_capabilities request delegator envelope held now chain [] = ok chain
pass_capabilities request delegator envelope held now chain (capability ∷ rest) =
    pass_capability request delegator envelope held now chain capability >>= λ longer.
    pass_capabilities request delegator envelope held now longer rest

unfoldable pub new_delegation : TenantContext → DelegationRequest → List DelegationId → Delegation
new_delegation tenant request chain = record {
  id = request.id;
  delegator = request.delegator;
  delegate = request.delegate;
  tenant_id = tenant.tenant_id;
  capabilities = request.capabilities;
  resource_scope = request.resource_scope;
  issued_at = request.issued_at;
  expires_at = request.expires_at;
  revoked_at = none;
  chain = chain;
}

-- The tests that need no store.
unfoldable pub check_request : Bool → DelegationRequest → ℤ → Result AuthError (Unit {0})
unfolding expires_unused delegation_error auth_error
check_request agents request now = do
  return_if (not agents)
      (auth_error delegation_management invalid_delegation "delegation requires `agents = true`")
  return_if (is_empty request.capabilities)
      (delegation_error "delegation must be capability-scoped")
  return_if (expires_unused request.expires_at request.issued_at now)
      (delegation_error "delegation expires before it can be used")

-- The delegator, once the delegate is known to be a usable agent or service.
unfoldable pub delegator_of :
    MeshStores → TenantContext → DelegationRequest → Result AuthError Principal
unfolding delegation_error
delegator_of s tenant request = do
  delegator ← principal s tenant request.delegator
  delegate ← principal s tenant request.delegate
  return_if (delegate.kind == Principal.human)
      (delegation_error "delegation targets an agent or a service")
  assert_principal_is_usable delegate
  ok delegator

-- The chain of the new delegation, once the delegator is known to hold all that it passes on.
unfoldable pub chain_of :
    Option ℤ
    → Result AuthError Policy
    → MeshStores
    → TenantContext
    → DelegationRequest
    → ℤ
    → Principal
    → Result AuthError (List DelegationId)
unfolding auth_error pass_capabilities
chain_of clock policy s tenant request now delegator = do
  policy ← policy
  held ← delegations_for s tenant delegator.id
  envelope ←
      map_err (auth_error policy_evaluation policy_not_found)
        (evaluate_with_delegations clock policy delegator tenant held now)
  pass_capabilities request delegator envelope held now [] request.capabilities

-- The delegation that a request asks for, or why it is refused.
unfoldable pub delegation_of_request :
    Option ℤ
    → Bool
    → Result AuthError Policy
    → MeshStores
    → TenantContext
    → DelegationRequest
    → ℤ
    → Result AuthError Delegation
unfolding check_request delegator_of chain_of new_delegation
delegation_of_request clock agents policy s tenant request now = do
  check_request agents request now
  delegator ← delegator_of s tenant request
  chain ← chain_of clock policy s tenant request now delegator
  ok (new_delegation tenant request chain)

stored : MeshStores → Result AuthError Delegation → MeshStores × Result AuthError Delegation
stored s (err e) = (s, err e)
stored s (ok d) =
    let (delegations, result) = create_delegation s.delegations d in
    (
      record s { delegations = delegations },
      map_err (auth_error delegation_management invalid_delegation) result,
    )

unfoldable pub store_delegation :
    Option ℤ
    → Bool
    → Result AuthError Policy
    → MeshStores
    → TenantContext
    → DelegationRequest
    → ℤ
    → MeshStores × Result AuthError Delegation
unfolding stored delegation_of_request
store_delegation clock agents policy s tenant request now =
    stored s (delegation_of_request clock agents policy s tenant request now)
