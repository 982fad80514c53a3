-- ===== src/Contract/Tenant.antt =====
-- crates/contract/src/tenant.rs
use multi.Prelude.{String}
use multi.Contract.Ids.{TenantId, PolicyId, StorageRootId}

pub record Tenant : Type 0 where
  pub id : TenantId
  pub namespace : String
  pub policy_id : PolicyId
  pub storage_root_id : StorageRootId

pub record TenantContext : Type 0 where
  pub tenant_id : TenantId
  pub namespace : String
  pub policy_id : PolicyId
  pub storage_root_id : StorageRootId

-- `impl From<Tenant>` and `impl From<&Tenant>`
unfoldable pub tenant_context : Tenant → TenantContext
tenant_context t = record {
  tenant_id = t.id;
  namespace = t.namespace;
  policy_id = t.policy_id;
  storage_root_id = t.storage_root_id;
}
