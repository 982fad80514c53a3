-- ===== src/Runtime/Resolution/Provisioning.antt =====
-- crates/runtime/src/resolution.rs: new principals, and further identities of a principal.
pub mod Provisioned
use multi.Prelude.{
  String, Bool, Option, none, some, List, [], ◌==◌, string_eq, is_some, if◌then◌else◌, ℤ, Result,
  ok, err, ok_or,
}
use multi.Contract.Ids.{PrincipalId, ProviderName, ProviderSubject}
use multi.Contract.Claims.{Claims, Identity}
use multi.Contract.Principal
use multi.Contract.Principal.{AgentState, Principal, PrincipalKind, principal_kind_eq, active}
use multi.Contract.Tenant.{TenantContext}
use multi.Authz.Evaluator.{return_if}
use multi.Providers.Connector.{ExternalIdentity}
use multi.Storage.Identities
use multi.Storage.Identities.{link_account, update_claims, find_identity}
use multi.Storage.Principals
use multi.Storage.Principals.{
  ExternalBinding, get_principal, put_principal, bind_external_identity, resolve_external_identity,
}
use multi.Runtime.Errors.{AuthError, map_err}
use multi.Runtime.Stateful.{Stateful, pure, lift, gets, ◌>>=◌, ◌>>◌}
use multi.Runtime.Stores.{MeshStores}
use multi.Runtime.Resolution.{
  ResolvedPrincipal, principal_id_for, identity_error, resolution_error, contract_version,
}

-- A call of one of the two stores.
abbrev pub on_identities :
    {A : Type 0} → (Identities.Store → Identities.Store × Result String A) → Stateful MeshStores A
on_identities f s =
    let (i, r) = f s.identities in (record s { identities = i }, map_err identity_error r)

abbrev pub on_principals :
    {A : Type 0} → (Principals.Store → Principals.Store × Result String A) → Stateful MeshStores A
on_principals f s =
    let (p, r) = f s.principals in (record s { principals = p }, map_err resolution_error r)

module _ (tenant : TenantContext) (connector : ProviderName) (subject : ProviderSubject)
    (claims : Claims) where
  -- The identity that is returned is the one before its claims are set.
  unfoldable pub link_identity_record : Stateful MeshStores Identity
  unfolding identity_error
  link_identity_record = do
    identity ← on_identities (λ s. link_account s tenant connector subject)
    on_identities (λ s. update_claims s tenant identity.id claims)
    pure identity

-- `if kind == PrincipalKind::Agent { principal.agent_state = Some(AgentState::Active); }`
state_of : PrincipalKind → Option AgentState
state_of kind = if kind == Principal.agent then some active else none

unfoldable pub new_principal : TenantContext → ExternalIdentity → PrincipalKind → Claims → Principal
unfolding state_of principal_id_for
new_principal tenant external kind claims = record {
  id = principal_id_for tenant.tenant_id external.connector external.subject;
  kind = kind;
  tenant_id = tenant.tenant_id;
  claims = claims;
  version = contract_version;
  agent_state = state_of kind;
}

unfoldable pub provision_principal :
    TenantContext
    → ExternalIdentity
    → PrincipalKind
    → Claims
    → ℤ
    → Stateful MeshStores ResolvedPrincipal
unfolding resolution_error new_principal link_identity_record
provision_principal tenant external kind claims now = do
  gets (λ s.
      return_if
        (is_some
          (resolve_external_identity s.principals tenant external.connector external.subject))
        (resolution_error "external identity is already linked to a principal"))
  identity ← link_identity_record tenant external.connector external.subject claims
  let principal = new_principal tenant external kind claims
  on_principals (λ s. put_principal s principal)
  binding ←
      on_principals
        (λ s. bind_external_identity s tenant external.connector external.subject principal.id now)
  pure (record { principal = principal; identity = identity; binding = binding })

-- `if identities.find_identity(..)?.is_none() { link_identity_record(..)?; }`
link_if_none :
    TenantContext → ExternalIdentity → Claims → Option Identity → Stateful MeshStores (Unit {0})
unfolding link_identity_record
link_if_none tenant external claims (some identity) = pure tt
link_if_none tenant external claims none =
    link_identity_record tenant external.connector external.subject claims >>= λ _. pure tt

unfoldable pub link_external_identity :
    TenantContext → PrincipalId → ExternalIdentity → ℤ → Stateful MeshStores ExternalBinding
unfolding resolution_error identity_error link_if_none
link_external_identity tenant principal_id external now = do
  found ← gets (λ s. map_err resolution_error (get_principal s.principals tenant principal_id))
  principal ← lift (ok_or found (resolution_error "unknown principal"))
  known ← gets (λ s.
      map_err identity_error
        (find_identity s.identities tenant external.connector external.subject))
  link_if_none tenant external principal.claims known
  on_principals
      (λ s. bind_external_identity s tenant external.connector external.subject principal_id now)
