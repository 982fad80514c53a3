-- ===== src/Runtime/Stores.antt =====
-- crates/runtime/src/mesh.rs: the stores of the mesh, and its lookups.
use multi.Prelude.{
  ◌<>◌, Option, some, List, ◌==◌, if◌then◌else◌, Result, ok, err, ◌>>=◌, ok_or, not,
}
use multi.Contract.Ids.{PrincipalId, RunId}
use multi.Contract.Delegation.{Delegation}
use multi.Contract.Principal
use multi.Contract.Principal.{Principal, AgentState, principal_kind_eq, active, suspended}
use multi.Contract.Run.{AgentRun}
use multi.Contract.Tenant.{TenantContext}
use multi.Authz.Reason.{
  agent_suspended, agent_revoked, unknown_principal, invalid_delegation, run_not_found,
}
use multi.Storage.Principals
use multi.Storage.Principals.{get_principal}
use multi.Storage.Delegations
use multi.Storage.Delegations.{list_delegations_for_delegate}
use multi.Storage.Runs
use multi.Storage.Tenants
use multi.Storage.Identities
use multi.Storage.Sessions
use multi.Runtime.Policies
use multi.Storage.Runs.{get_run}
use multi.Runtime.Errors.{
  AuthError, auth_error, principal_error, run_error, map_err, principal_resolution, agent_lifecycle,
  delegation_management,
}

-- The audit log stands beside them, since the mesh writes to any implementation of its trait.
pub record MeshStores : Type 0 where
  pub tenants : Tenants.Store
  pub identities : Identities.Store
  pub principals : Principals.Store
  pub sessions : Sessions.Store
  pub delegations : Delegations.Store
  pub runs : Runs.Store
  pub policies : Policies.Store

unfoldable pub principal : MeshStores → TenantContext → PrincipalId → Result AuthError Principal
principal s tenant id = do
  found ← map_err principal_error (get_principal s.principals tenant id)
  ok_or found
      (auth_error principal_resolution unknown_principal ("unknown principal `" <> id <> "`"))

unfoldable pub delegations_for :
    MeshStores → TenantContext → PrincipalId → Result AuthError (List Delegation)
delegations_for s tenant delegate =
    map_err (auth_error delegation_management invalid_delegation)
      (list_delegations_for_delegate s.delegations tenant delegate)

unfoldable pub agent_run : MeshStores → TenantContext → RunId → Result AuthError (Option AgentRun)
agent_run s tenant id =
    map_err (λ message. run_error message run_not_found) (get_run s.runs tenant id)

-- `match principal.agent_state`
usable_state : Option AgentState → Result AuthError (Unit {0})
usable_state (some active) = ok tt
usable_state (some suspended) =
    err (auth_error agent_lifecycle agent_suspended "agent is suspended")
usable_state _ = err (auth_error agent_lifecycle agent_revoked "agent is not active")

unfoldable pub assert_principal_is_usable : Principal → Result AuthError (Unit {0})
unfolding usable_state
assert_principal_is_usable p =
    if not (p.kind == Principal.agent) then ok tt else usable_state p.agent_state
