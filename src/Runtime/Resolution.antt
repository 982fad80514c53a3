-- ===== src/Runtime/Resolution.antt =====
-- crates/runtime/src/resolution.rs: external identities and the principals they are resolved to.
pub mod Provisioning
use multi.Prelude.{
  String, ◌<>◌, Bool, true, false, ◌&&◌, Option, none, some, List, [], find, ◌==◌, string_eq,
  is_some, if◌then◌else◌, ℤ, Result, ok, err, ◌>>=◌, ok_or,
}
use multi.Contract.Ids.{PrincipalId, ProviderName, ProviderSubject, TenantId}
use multi.Contract.Claims.{Claims, ContractVersion, Identity}
use multi.Contract.Principal
use multi.Contract.Principal.{AgentState, Principal, PrincipalKind, principal_kind_eq, active}
use multi.Contract.Tenant.{TenantContext}
use multi.Authz.Evaluator.{return_if}
use multi.Authz.Reason.{unknown_principal}
use multi.Dsl.Hash.{hash_of}
use multi.Providers.Connector.{ExternalIdentity}
use multi.Storage.Identities
use multi.Storage.Identities.{link_account, update_claims, find_identity}
use multi.Storage.Principals
use multi.Storage.Principals.{
  ExternalBinding, get_principal, put_principal, bind_external_identity, resolve_external_identity,
  bindings_for,
}
use multi.Runtime.Errors.{AuthError, auth_error, map_err, identity_resolution, principal_resolution}
use multi.Runtime.Stores.{MeshStores}

abbrev pub contract_version : ContractVersion
contract_version = record { major = 1; minor = 0 }

unfoldable pub principal_id_for : TenantId → String → String → PrincipalId
principal_id_for tenant connector subject =
    "prn_" <> hash_of (tenant <> "|" <> connector <> "|" <> subject)

pub record ResolvedPrincipal : Type 0 where
  pub principal : Principal
  pub identity : Identity
  pub binding : ExternalBinding

unfoldable pub identity_error : String → AuthError
unfolding auth_error
identity_error = auth_error identity_resolution unknown_principal

-- The `principal_error` of this file, which makes no difference between its causes.
unfoldable pub resolution_error : String → AuthError
unfolding auth_error
resolution_error = auth_error principal_resolution unknown_principal

module _ (s : MeshStores) (tenant : TenantContext) (external : ExternalIdentity) where
  resolved_to : PrincipalId → Result AuthError ResolvedPrincipal
  unfolding resolution_error identity_error
  resolved_to id = do
    found ← map_err resolution_error (get_principal s.principals tenant id)
    principal ← ok_or found (resolution_error "external identity is bound to an unknown principal")
    bindings ← map_err resolution_error (bindings_for s.principals tenant id)
    binding ←
        ok_or
          (find (λ b. b.connector == external.connector && b.external_subject == external.subject)
            bindings)
          (resolution_error "external identity binding could not be read back")
    found ←
        map_err identity_error
          (find_identity s.identities tenant external.connector external.subject)
    identity ← ok_or found (identity_error "external identity has no identity record")
    ok (record { principal = principal; identity = identity; binding = binding })

  resolved_if : Option PrincipalId → Result AuthError (Option ResolvedPrincipal)
  unfolding resolved_to
  resolved_if none = ok none
  resolved_if (some id) = resolved_to id >>= λ resolved. ok (some resolved)

  unfoldable pub resolve_principal : Result AuthError (Option ResolvedPrincipal)
  unfolding resolved_if
  resolve_principal =
      resolved_if
        (resolve_external_identity s.principals tenant external.connector external.subject)
