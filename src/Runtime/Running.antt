-- ===== src/Runtime/Running.antt =====
-- crates/runtime/src/mesh.rs, `create_agent_run` from the tenant that was found to the stored run,
-- and the checks of a run; crates/runtime/src/context.rs. `fresh` is the id that the sequence of
-- runs gives next, and `credential_of` the hash that a run's credential is.
pub mod Narrowing
use multi.Prelude.{
  ℕ, String, ◌<>◌, Bool, true, false, not, ◌&&◌, ◌||◌, Option, none, some, List, [], ◌∷◌, ◌++◌,
  lookup, contains, ◌==◌, string_eq, is_some, if◌then◌else◌, ℤ, leb_ℤ, ltb_ℤ, Result, ok, err,
  ◌>>=◌, ◌>>◌, ok_or,
}
use multi.Contract.Ids.{
  Capability, DelegationId, ExecutionCredentialId, PrincipalId, RunId, SessionId, TaskId, TenantId,
}
use multi.Contract.Claims.{Claims, ClaimValue}
use multi.Contract.Scope.{ResourceScope, is_empty, is_subset_of}
use multi.Contract.Delegation.{Delegation, is_valid_at}
use multi.Contract.Principal
use multi.Contract.Principal.{Principal, principal_kind_eq}
use multi.Contract.Run.{AgentRun, RunStatus, active, completed, cancelled, expired, failed}
use multi.Contract.Tenant.{TenantContext}
use multi.Authz.Policy.{AuthorizationRequest, ResourceAttributes}
use multi.Authz.Reason.{
  DenialReason, delegation_missing, invalid_delegation, revoked_delegation, expired_delegation,
  run_not_found, run_cancelled, run_expired, run_scope_denied, run_exceeds_delegation,
  parent_run_scope_denied,
}
use multi.Authz.Decision.{CapabilityEnvelope}
use multi.Authz.Evaluator.{return_if, matches_tenant, resource_fits}
use multi.Contract.Scope.{is_unconstrained}
use multi.Storage.Delegations.{get_delegation}
use multi.Storage.Runs.{put_run}
use multi.Runtime.Errors.{AuthError, auth_error, run_error, map_err, delegation_management}
use multi.Runtime.Picking.{or_else}
use multi.Runtime.Stores.{MeshStores, principal, agent_run, assert_principal_is_usable}

pub record RuntimeContext : Type 0 where
  pub principal : Principal
  pub tenant : TenantContext
  pub session_id : Option SessionId
  pub delegation : Option Delegation
  pub run : Option AgentRun
  pub claims : Claims
  pub capabilities : CapabilityEnvelope

pub record RunCreationRequest : Type 0 where
  pub id : Option RunId
  pub task_id : TaskId
  pub task_purpose : String
  pub delegation_id : DelegationId
  pub parent_run_id : Option RunId
  pub capabilities : List Capability
  pub resource_scope : ResourceScope
  pub expires_at : ℤ
  pub constraints : List String

-- `match run.status`
check_status : RunStatus → Result AuthError (Unit {0})
check_status active = ok tt
check_status cancelled = err (run_error "run is cancelled" run_cancelled)
check_status expired = err (run_error "run is expired" run_expired)
check_status completed = err (run_error "run is no longer active" run_cancelled)
check_status failed = err (run_error "run is no longer active" run_cancelled)

unfoldable pub checked_run : MeshStores → TenantContext → RunId → ℤ → Result AuthError AgentRun
unfolding check_status
checked_run s tenant id now = do
  found ← agent_run s tenant id
  run ← ok_or found (run_error "run not found" run_not_found)
  check_status run.status
  return_if (leb_ℤ run.expires_at now) (run_error "run is expired" run_expired)
  ok run

-- The same test as the engine's `delegation_scope_matches`, written again in the source.
unfoldable pub resource_scope_matches :
    ResourceScope → AuthorizationRequest → Option ResourceAttributes → Bool
resource_scope_matches scope request attributes =
    if is_unconstrained scope then true else resource_fits scope request.resource attributes

denial_of : Result AuthError AgentRun → Result (DenialReason × Option AgentRun) AgentRun
denial_of (ok run) = ok run
denial_of (err e) = err (e.denial, none)

unfoldable pub checked_run_for_request :
    MeshStores
    → RuntimeContext
    → RunId
    → AuthorizationRequest
    → Option ResourceAttributes
    → ℤ
    → Result (DenialReason × Option AgentRun) AgentRun
unfolding denial_of
checked_run_for_request s context id request attributes now = do
  run ← denial_of (checked_run s context.tenant id now)
  return_if
      (not (run.agent_principal == context.principal.id)
        || not (run.tenant_id == context.tenant.tenant_id))
      (run_not_found, some run)
  return_if (not (contains run.capability_scope request.capability)) (run_scope_denied, some run)
  return_if (not (resource_scope_matches run.resource_scope request attributes))
      (run_scope_denied, some run)
  ok run

-- `map(|value| matches_tenant(value, ..)).unwrap_or(true)`
names_tenant : Option ClaimValue → TenantId → Bool
names_tenant none tenant_id = true
names_tenant (some value) tenant_id = matches_tenant value tenant_id

unfoldable pub tenant_scope_holds : ResourceScope → TenantId → Bool
unfolding names_tenant
tenant_scope_holds scope tenant_id =
    names_tenant (or_else (lookup "tenant" scope.attributes) (lookup "tenant_id" scope.attributes))
      tenant_id

-- `for capability in .. { if !scope.contains(capability) { return Err(..); } }`
unfoldable pub check_capabilities :
    List Capability → (Capability → AuthError) → List Capability → Result AuthError (Unit {0})
check_capabilities scope refusal [] = ok tt
check_capabilities scope refusal (c ∷ cs) =
    let rest = check_capabilities scope refusal cs in
    if not (contains scope c) then err (refusal c) else rest

unfoldable pub check_agent :
    MeshStores → TenantContext → PrincipalId → RunCreationRequest → ℤ → Result AuthError (Unit {0})
check_agent s tenant agent_id request now = do
  return_if (is_empty request.capabilities)
      (run_error "run task must request structured capabilities" run_exceeds_delegation)
  return_if (leb_ℤ request.expires_at now)
      (run_error "run expires before it can be used" run_expired)
  agent ← principal s tenant agent_id
  return_if (not (agent.kind == Principal.agent))
      (run_error "run principal must be an agent" run_not_found)
  assert_principal_is_usable agent

-- The tests on the delegation that was read.
unfoldable pub checked_delegation :
    TenantContext → PrincipalId → ℤ → Option Delegation → Result AuthError Delegation
checked_delegation tenant agent_id now found = do
  delegation ← ok_or found (run_error "delegation not found" delegation_missing)
  return_if
      (not (delegation.delegate == agent_id) || not (delegation.tenant_id == tenant.tenant_id))
      (run_error "delegation does not belong to this agent" invalid_delegation)
  return_if (is_some delegation.revoked_at) (run_error "delegation is revoked" revoked_delegation)
  return_if (not (is_valid_at delegation now))
      (run_error "delegation is expired" expired_delegation)
  ok delegation

-- The delegation that the run rests on, valid now and the agent's own.
unfoldable pub delegation_of_run :
    MeshStores → TenantContext → PrincipalId → RunCreationRequest → ℤ → Result AuthError Delegation
unfolding checked_delegation
delegation_of_run s tenant agent_id request now = do
  found ←
      map_err (auth_error delegation_management invalid_delegation)
        (get_delegation s.delegations tenant request.delegation_id)
  checked_delegation tenant agent_id now found

-- `map(|expires_at| request.expires_at > expires_at).unwrap_or(false)`
unfoldable pub outlives : ℤ → Option ℤ → Bool
outlives expires_at none = false
outlives expires_at (some bound) = ltb_ℤ bound expires_at

unfoldable pub outside_delegation : Capability → AuthError
outside_delegation c =
    run_error ("run requests `" <> c <> "` outside delegation") run_exceeds_delegation

unfoldable pub outside_parent : Capability → AuthError
outside_parent c =
    run_error ("child run requests `" <> c <> "` outside parent run") parent_run_scope_denied

unfoldable pub check_scope :
    TenantContext → RunCreationRequest → Delegation → Result AuthError (Unit {0})
unfolding outlives check_capabilities tenant_scope_holds
check_scope tenant request delegation = do
  return_if (outlives request.expires_at delegation.expires_at)
      (run_error "run expiration exceeds delegation lifetime" run_exceeds_delegation)
  check_capabilities delegation.capabilities outside_delegation request.capabilities
  return_if (not (tenant_scope_holds request.resource_scope tenant.tenant_id))
      (run_error "run resource scope crosses tenant boundary" run_exceeds_delegation)
  return_if (not (is_subset_of request.resource_scope delegation.resource_scope))
      (run_error "run resource scope must narrow the delegation" run_exceeds_delegation)

unfoldable pub check_parent :
    MeshStores → TenantContext → RunCreationRequest → ℤ → Option RunId → Result AuthError (Unit {0})
unfolding checked_run check_capabilities
check_parent s tenant request now none = ok tt
check_parent s tenant request now (some parent_id) = do
  parent ←
      map_err (λ e. run_error "parent run is not valid" parent_run_scope_denied)
        (checked_run s tenant parent_id now)
  check_capabilities parent.capability_scope outside_parent request.capabilities
  return_if
      (not (is_subset_of request.resource_scope parent.resource_scope)
        || ltb_ℤ parent.expires_at request.expires_at)
      (run_error "child run must narrow the parent run" parent_run_scope_denied)

-- `request.id.unwrap_or_else(|| self.next_run_id(&tenant))`
unfoldable pub id_of_run : Option RunId → RunId → RunId
id_of_run none fresh = fresh
id_of_run (some id) fresh = id

unfoldable pub new_run :
    (TenantContext → RunId → ExecutionCredentialId)
    → RunId
    → TenantContext
    → PrincipalId
    → RunCreationRequest
    → ℤ
    → ℕ
    → String
    → Delegation
    → AgentRun
unfolding id_of_run
new_run credential_of fresh tenant agent_id request now revision fingerprint delegation = record {
  id = id_of_run request.id fresh;
  tenant_id = tenant.tenant_id;
  agent_principal = agent_id;
  delegator = delegation.delegator;
  delegation_id = delegation.id;
  delegation_chain = delegation.chain ++ delegation.id ∷ [];
  task = record {
    id = request.task_id;
    purpose = request.task_purpose;
    capabilities = request.capabilities;
    resource_scope = request.resource_scope;
    expires_at = request.expires_at;
    constraints = request.constraints;
  };
  parent_run_id = request.parent_run_id;
  created_at = now;
  expires_at = request.expires_at;
  status = active;
  authority_revision = revision;
  contract_fingerprint = fingerprint;
  capability_scope = request.capabilities;
  resource_scope = request.resource_scope;
  execution_credential = credential_of tenant (id_of_run request.id fresh);
  cancelled_at = none;
}

-- The run that a request asks for, or why it is refused.
unfoldable pub run_of_request :
    (TenantContext → RunId → ExecutionCredentialId)
    → RunId
    → MeshStores
    → TenantContext
    → PrincipalId
    → RunCreationRequest
    → ℤ
    → ℕ
    → String
    → Result AuthError AgentRun
unfolding check_agent delegation_of_run check_scope check_parent new_run
run_of_request credential_of fresh s tenant agent_id request now revision fingerprint = do
  check_agent s tenant agent_id request now
  delegation ← delegation_of_run s tenant agent_id request now
  check_scope tenant request delegation
  check_parent s tenant request now request.parent_run_id
  ok (new_run credential_of fresh tenant agent_id request now revision fingerprint delegation)
