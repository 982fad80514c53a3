-- ===== src/Storage/Tenants.antt =====
-- crates/storage/src/memory.rs, `MemoryTenantRoot`.
use multi.Prelude.{
  String, ◌||◌, not, Option, Dict, lookup, insert, ◌==◌, string_eq, if◌then◌else◌, Result, ok, err,
  ◌>>=◌, ok_or,
}
use multi.Contract.Ids.{TenantId, StorageRootId}
use multi.Contract.Tenant.{TenantContext}

abbrev pub Store : Type 0
Store = Dict TenantId TenantContext

unfoldable pub put_tenant : Store → TenantContext → Store
put_tenant s tenant = insert tenant.tenant_id tenant s

unfoldable pub get_tenant : Store → TenantId → Option TenantContext
get_tenant s id = lookup id s

unfoldable pub verify_storage_root :
    Store → TenantContext → StorageRootId → Result String (Unit {0})
unfolding get_tenant
verify_storage_root s tenant root = do
  stored ← ok_or (get_tenant s tenant.tenant_id) "unknown tenant"
  if not (stored.storage_root_id == root) || not (tenant.storage_root_id == root)
      then err "storage-root mismatch"
      else ok tt
