-- ===== src/Runtime/Mesh.antt =====
-- crates/runtime/src/mesh.rs, `AuthMesh`: the state of the mesh, and the lookups of the tenant and of its
-- policy.
use multi.Prelude.{ℕ, String, ◌<>◌, Option, List, string_eq, if◌then◌else◌, ℤ, Result, err, ok_or}
use multi.Prelude.Blank.{trim, is_empty}
use multi.Contract.Ids.{SessionId}
use multi.Contract.Tenant.{TenantContext}
use multi.Authz.Evidence.{AuthorizationEvidence}
use multi.Authz.Policy.{Policy}
use multi.Authz.Reason.{policy_not_found, unknown_tenant}
use multi.Dsl.Model.{AuthConfig}
use multi.Providers.Connector.{ConnectorRegistry}
use multi.Storage.Audit.{AuditEvent}
use multi.Storage.Tenants.{get_tenant}
use multi.Runtime.Stateful.{Stateful}
use multi.Runtime.Errors.{AuthError, auth_error, policy_evaluation, tenant_resolution}
use multi.Runtime.Picking.{or_else}
use multi.Runtime.Policies.{policy_for, policy_from_config}
use multi.Runtime.Stores.{MeshStores}

pub record AuthMesh (Log : Type 0) : Type 0 where
  pub config : AuthConfig
  pub registry : ConnectorRegistry
  pub stores : MeshStores
  pub audit : Log
  pub session_ttl : ℤ
  pub audit_sequence : ℕ
  pub run_sequence : ℕ
  pub decisions : List AuthorizationEvidence

-- What the mesh runs on: the system clock, the ids that the session store draws, and the audit log,
-- which may refuse an event.
pub record Host (Log : Type 0) : Type 0 where
  pub clock : Option ℤ
  pub mint : ℕ → SessionId
  pub record_event : Log → TenantContext → AuditEvent → Log × Result String (Unit {0})

-- A call of one of the stores.
abbrev pub on_stores : {Log A : Type 0} → Stateful MeshStores A → Stateful (AuthMesh Log) A
on_stores f m = let (s, r) = f m.stores in (record m { stores = s }, r)

unfoldable pub tenant : MeshStores → String → Result AuthError TenantContext
tenant s tenant_id =
    if is_empty (trim tenant_id)
    then err (auth_error tenant_resolution unknown_tenant "missing tenant")
    else ok_or (get_tenant s.tenants tenant_id)
        (auth_error tenant_resolution unknown_tenant ("unknown tenant `" <> tenant_id <> "`"))

-- A stored policy, or else the one of the declaration.
unfoldable pub policy : AuthConfig → MeshStores → TenantContext → Result AuthError Policy
policy config s tenant =
    ok_or (or_else (policy_for s.policies tenant) (policy_from_config config tenant)) (
      auth_error policy_evaluation policy_not_found
        ("tenant `" <> tenant.tenant_id <> "` has no policy"))
