-- ===== src/Runtime/Contexts.antt =====
-- crates/runtime/src/mesh.rs, `context_for` and `resolve_session`: the authority behind a session is
-- read back from the stores. The errors of sessions and of connectors.
pub mod Reading
pub mod Inactive
use multi.Prelude.{
  String, Bool, true, Option, none, some, List, [], ◌∷◌, find, ◌==◌, string_eq, if◌then◌else◌, ℤ,
  Result, ok, err, ◌>>=◌, ◌>>◌, ok_or,
}
use multi.Contract.Ids.{DelegationId, SessionId}
use multi.Contract.Delegation.{Delegation}
use multi.Contract.Principal.{Principal}
use multi.Contract.Tenant.{TenantContext}
use multi.Authz.Decision.{CapabilityEnvelope, GrantedCapability}
use multi.Authz.Evaluator.{evaluate_with_delegations}
use multi.Authz.Reason.{
  DenialReason, expired_session, invalid_session, policy_denied, revoked_session, tenant_mismatch,
  unknown_principal, unsupported_connector,
}
use multi.Authz.Reason
use multi.Dsl.Model.{AuthConfig}
use multi.Providers.Connector.{
  ConnectorError, to_string, unknown_connector, unsupported, not_declared, duplicate_connector,
  invalid_request, invalid_credentials, challenge_mismatch, password_reused,
  password_hashing_failed,
}
use multi.Storage.Identities.{get_identity}
use multi.Storage.Principals.{resolve_external_identity}
use multi.Storage.Sessions.{Session, validate_session}
use multi.Runtime.Errors.{
  AuthError, AuthLifecycleStage, auth_error, principal_error, map_err, connector_resolution,
  identity_resolution, policy_evaluation, principal_resolution, provider_authentication,
  session_validation,
}
use multi.Runtime.Mesh.{policy, tenant}
use multi.Runtime.Running.{RuntimeContext}
use multi.Runtime.Stores.{MeshStores, assert_principal_is_usable, delegations_for, principal}

unfoldable pub session_error : String → AuthError
unfolding auth_error
session_error message =
    auth_error session_validation
      (if message == "expired session"
        then expired_session
        else if message == "revoked session"
        then revoked_session
        else if message == "tenant mismatch"
        then tenant_mismatch
        else invalid_session)
      message

denial_of : ConnectorError → DenialReason
denial_of (unknown_connector c) = unsupported_connector
denial_of (unsupported c) = unsupported_connector
denial_of (not_declared c) = unsupported_connector
denial_of (duplicate_connector c) = unsupported_connector
denial_of (invalid_request c message) = unknown_principal
denial_of (invalid_credentials c) = unknown_principal
denial_of (challenge_mismatch c) = unknown_principal
denial_of (password_reused c) = Reason.password_reused
denial_of (password_hashing_failed c) = policy_denied

stage_of : ConnectorError → AuthLifecycleStage
stage_of (unknown_connector c) = connector_resolution
stage_of (not_declared c) = connector_resolution
stage_of (duplicate_connector c) = connector_resolution
stage_of _ = provider_authentication

unfoldable pub connector_error : ConnectorError → AuthError
unfolding auth_error denial_of stage_of
connector_error e = auth_error (stage_of e) (denial_of e) (to_string e)

-- `find_map(|grant| grant.delegation_id.clone())`
first_delegation : List GrantedCapability → Option DelegationId
first_delegation [] = none
first_delegation (g ∷ gs) =
    let rest = first_delegation gs in elim g.delegation_id [ none ↦ rest | some id ↦ some id ]

entry_of : List Delegation → Option DelegationId → Option Delegation
entry_of delegations none = none
entry_of delegations (some id) = find (λ entry. entry.id == id) delegations

unfoldable pub context_for :
    Option ℤ
    → AuthConfig
    → MeshStores
    → TenantContext
    → Principal
    → Option SessionId
    → ℤ
    → Result AuthError RuntimeContext
unfolding first_delegation entry_of auth_error
context_for clock config s tenant principal session_id now = do
  policy ← policy config s tenant
  delegations ← delegations_for s tenant principal.id
  capabilities ←
      map_err (auth_error policy_evaluation tenant_mismatch)
        (evaluate_with_delegations clock policy principal tenant delegations now)
  ok (record {
    principal = principal;
    tenant = tenant;
    session_id = session_id;
    delegation = entry_of delegations (first_delegation capabilities.granted_capabilities);
    run = none;
    claims = principal.claims;
    capabilities = capabilities;
  })

-- The principal behind a session, who must be usable now.
unfoldable pub principal_of_session :
    MeshStores → TenantContext → Session → Result AuthError Principal
unfolding auth_error
principal_of_session s tenant session = do
  found ←
      map_err (auth_error identity_resolution unknown_principal)
        (get_identity s.identities tenant session.identity_id)
  identity ←
      ok_or found (auth_error identity_resolution invalid_session "session identity is unknown")
  principal_id ←
      ok_or
        (resolve_external_identity s.principals tenant identity.provider identity.provider_subject)
        (auth_error principal_resolution unknown_principal
          "session identity is not bound to a principal")
  principal ← principal s tenant principal_id
  assert_principal_is_usable principal
  ok principal

unfoldable pub resolve_session :
    Option ℤ
    → AuthConfig
    → MeshStores
    → String
    → SessionId
    → ℤ
    → Result AuthError (Session × RuntimeContext)
unfolding session_error principal_of_session context_for tenant
resolve_session clock config s tenant_id session_id now = do
  tenant ← tenant s tenant_id
  session ← map_err session_error (validate_session s.sessions tenant session_id now)
  principal ← principal_of_session s tenant session
  context ← context_for clock config s tenant principal (some session.id) now
  ok (session, context)
