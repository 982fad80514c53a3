-- ===== src/Runtime/Connecting.antt =====
-- crates/runtime/src/mesh.rs, `connector` and `authenticate_external`: the identity that a connector
-- proves, for the tenant and the connector that the response names.
use multi.Prelude.{
  String, ◌<>◌, Bool, false, not, Option, none, some, ◌==◌, string_eq, Result, ok, ◌>>=◌, ◌>>◌,
}
use multi.Prelude.Blank.{trim, is_empty}
use multi.Contract.Tenant.{TenantContext}
use multi.Authz.Evaluator.{return_if}
use multi.Authz.Reason.{tenant_mismatch, unknown_principal, unsupported_connector}
use multi.Dsl.Model.{AuthConfig, declares_provider}
use multi.Providers.Connector.{
  AuthConnector, AuthResponse, ConnectorRegistry, ExternalIdentity, connector_of,
}
use multi.Runtime.Contexts.{connector_error}
use multi.Runtime.Errors.{
  AuthError, auth_error, map_err, connector_resolution, provider_authentication,
}

module _ (config : AuthConfig) (registry : ConnectorRegistry) where
  unfoldable pub connector : String → Result AuthError AuthConnector
  unfolding declares_provider connector_error connector_of auth_error
  connector id = do
    return_if (not (declares_provider config id)) (
        auth_error connector_resolution unsupported_connector
          ("connector `" <> id <> "` is not declared by `use auth`"))
    map_err connector_error (connector_of registry id)

-- `if let Some(declared) = &response.tenant { if declared != tenant { .. } }`
targets_other : Option String → TenantContext → Bool
targets_other none tenant = false
targets_other (some declared) tenant = not (declared == tenant.tenant_id)

unfoldable pub authenticate_external :
    AuthConfig
    → ConnectorRegistry
    → TenantContext
    → AuthResponse
    → Result AuthError ExternalIdentity
unfolding connector targets_other connector_error auth_error
authenticate_external config registry tenant response = do
  connector ← connector config registry response.connector
  return_if (targets_other response.tenant tenant) (
      auth_error provider_authentication tenant_mismatch
        "authentication response targets a different tenant")
  external ← map_err connector_error (connector.authenticate response)
  return_if (not (external.connector == response.connector)) (
      auth_error provider_authentication unsupported_connector
        "connector returned an identity for a different connector")
  return_if (is_empty (trim external.subject))
      (auth_error provider_authentication unknown_principal "connector returned an empty subject")
  ok external
