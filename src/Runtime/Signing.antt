-- ===== src/Runtime/Signing.antt =====
-- crates/runtime/src/mesh.rs: signing in and up, further accounts, and the end of a session.
-- The session ends at `now + ttl` as integers: an `i64` that overflows there is left out.
pub mod Admitted
pub mod Readmitted
use multi.Prelude.{
  ℕ, String, ◌<>◌, Bool, true, false, ◌&&◌, not, Option, none, some, List, [], ◌∷◌, Dict, ◌==◌,
  string_eq, if◌then◌else◌, ℤ, ◌+ℤ◌, Result, ok, err, ok_or,
}
use multi.Prelude.Blank.{trim, is_empty}
use multi.Contract.Ids.{IdentityId, PrincipalId, SessionId}
use multi.Contract.Claims.{Claims}
use multi.Contract.Principal
use multi.Contract.Principal.{Principal, PrincipalKind, principal_kind_eq}
use multi.Contract.Tenant.{TenantContext}
use multi.Authz.Evaluator.{return_if}
use multi.Authz.Reason.{claim_mismatch, tenant_mismatch, unknown_principal, unsupported_connector}
use multi.Dsl.Model.{AuthConfig, declares_provider}
use multi.Providers.Connector.{
  AuthConnector, AuthResponse, ConnectorRegistry, ExternalIdentity, connector_of,
}
use multi.Storage.Audit.{AuditEventKind, account_linked, login, session_revoked}
use multi.Storage.Principals.{ExternalBinding}
use multi.Storage.Sessions.{Session, create_session, revoke_session}
use multi.Runtime.Auditing.{AuditRecord, audit, meta, new_record, with_principal, with_session}
use multi.Runtime.Connecting.{authenticate_external}
use multi.Runtime.Claims.{resolve_claims}
use multi.Runtime.Contexts.{connector_error, context_for, session_error}
use multi.Runtime.Errors.{
  AuthError, auth_error, map_err, agent_lifecycle, connector_resolution, principal_resolution,
  provider_authentication,
}
use multi.Runtime.Mesh.{AuthMesh, Host, on_stores, tenant}
use multi.Runtime.Resolution.{ResolvedPrincipal, resolve_principal}
use multi.Runtime.Resolution.Provisioning.{link_external_identity, provision_principal}
use multi.Runtime.Running.{RuntimeContext}
use multi.Runtime.Stateful.{Stateful, gets, lift, pure, ◌>>=◌, ◌>>◌}
use multi.Runtime.Stores.{MeshStores, assert_principal_is_usable}

pub record Registration : Type 0 where
  pub kind : PrincipalKind
  pub claims : Dict String String

pub record AuthenticatedSession : Type 0 where
  pub session : Session
  pub external : ExternalIdentity
  pub context : RuntimeContext

unfoldable pub authentication_method_for_provider : String → String
authentication_method_for_provider provider =
    if provider == "local" then "password" else "external_identity"

-- The claims of a new principal. An agent carries none.
claims_of : AuthConfig → Registration → Result AuthError Claims
unfolding auth_error resolve_claims
claims_of config r =
    if r.kind == Principal.agent
    then elim r.claims [
      | [] ↦ ok (record { values = [] })
      | entry ∷ entries ↦ err (
          auth_error agent_lifecycle claim_mismatch
            "agent authority comes from delegation, not from claims")
    ]
    else resolve_claims config r.claims

-- The audit record of a session that was opened.
session_record : AuditEventKind → PrincipalId → SessionId → String → AuditRecord
unfolding new_record with_principal with_session meta authentication_method_for_provider
session_record kind principal_id session_id connector = meta "authentication_result" "success" (
    meta "authentication_assurance" "basic" (
      meta "authentication_method" (authentication_method_for_provider connector) (
        meta "provider" connector
          (with_session session_id (with_principal principal_id (new_record kind))))))

not_linked : ExternalIdentity → AuthError
unfolding auth_error
not_linked external = auth_error principal_resolution unknown_principal (
    "external identity `" <> external.connector <> ":" <> external.subject
    <> "` is not linked in this tenant")

module _ {Log : Type 0} (host : Host Log) where
  unfoldable pub open_session : TenantContext → IdentityId → ℤ → Stateful (AuthMesh Log) Session
  unfolding create_session
  open_session tenant identity_id now m =
      let (sessions, session) =
        create_session host.mint m.stores.sessions tenant identity_id (now +ℤ m.session_ttl) in
      (record m { stores = record (m.stores) { sessions = sessions } }, ok session)

  -- The end of signing in and of signing up.
  unfoldable pub admit :
      AuditEventKind
      → TenantContext
      → ExternalIdentity
      → ResolvedPrincipal
      → ℤ
      → Stateful (AuthMesh Log) AuthenticatedSession
  unfolding open_session session_record audit context_for
  admit kind tenant external resolved now = do
    session ← open_session tenant resolved.identity.id now
    audit host tenant (session_record kind resolved.principal.id session.id external.connector) now
    context ← gets (λ m.
        context_for host.clock m.config m.stores tenant resolved.principal (some session.id) now)
    pure (record { session = session; external = external; context = context })

  unfoldable pub sign_in : String → AuthResponse → ℤ → Stateful (AuthMesh Log) AuthenticatedSession
  unfolding admit not_linked authenticate_external resolve_principal
  sign_in tenant_id response now = do
    tenant ← gets (λ m. tenant m.stores tenant_id)
    external ← gets (λ m. authenticate_external m.config m.registry tenant response)
    found ← gets (λ m. resolve_principal m.stores tenant external)
    resolved ← lift (ok_or found (not_linked external))
    lift (assert_principal_is_usable resolved.principal)
    admit login tenant external resolved now

  unfoldable pub sign_up :
      String → AuthResponse → Registration → ℤ → Stateful (AuthMesh Log) AuthenticatedSession
  unfolding admit claims_of authenticate_external provision_principal auth_error
  sign_up tenant_id response registration now = do
    tenant ← gets (λ m. tenant m.stores tenant_id)
    gets (λ m.
        return_if (registration.kind == Principal.agent && not m.config.agents)
          (auth_error agent_lifecycle unknown_principal "agents are not declared by `use auth`"))
    external ← gets (λ m. authenticate_external m.config m.registry tenant response)
    claims ← gets (λ m. claims_of m.config registration)
    resolved ← on_stores (provision_principal tenant external registration.kind claims now)
    admit account_linked tenant external resolved now

  unfoldable pub link_account :
      String → PrincipalId → AuthResponse → ℤ → Stateful (AuthMesh Log) ExternalBinding
  unfolding authenticate_external link_external_identity new_record with_principal meta audit
  link_account tenant_id principal_id response now = do
    tenant ← gets (λ m. tenant m.stores tenant_id)
    external ← gets (λ m. authenticate_external m.config m.registry tenant response)
    binding ← on_stores (link_external_identity tenant principal_id external now)
    audit host tenant
        (meta "connector" external.connector
          (with_principal principal_id (new_record account_linked)))
        now
    pure binding

  revoked_in : TenantContext → SessionId → ℤ → Stateful MeshStores (Unit {0})
  unfolding session_error
  revoked_in tenant session_id now s =
      let (sessions, result) = revoke_session s.sessions tenant session_id now in
      (record s { sessions = sessions }, map_err session_error result)

  unfoldable pub logout : String → SessionId → ℤ → Stateful (AuthMesh Log) (Unit {0})
  unfolding revoked_in with_session new_record audit
  logout tenant_id session_id now = do
    tenant ← gets (λ m. tenant m.stores tenant_id)
    on_stores (revoked_in tenant session_id now)
    audit host tenant (with_session session_id (new_record session_revoked)) now
