-- ===== src/Storage/Delegations.antt =====
-- crates/storage/src/memory.rs, `MemoryDelegationStore`.
pub mod Invariant
pub mod Revocation
use multi.Prelude.{
  String, Bool, true, false, ◌&&◌, Option, none, some, List, [], ◌∷◌, map, filter, Dict, lookup,
  insert, contains_key, ◌==◌, string_eq, if◌then◌else◌, ℤ, leb_ℤ, Result, ok, err,
}
use multi.Contract.Ids.{DelegationId, PrincipalId}
use multi.Contract.Scope.{is_empty}
use multi.Contract.Delegation.{Delegation}
use multi.Contract.Tenant.{TenantContext}
use multi.Storage.Sorting.{str_le, sort_by}

abbrev pub Store : Type 0
Store = Dict DelegationId Delegation

-- `expires_at.map(|expires_at| expires_at <= issued_at).unwrap_or(false)`
unfoldable pub expires_early : Option ℤ → ℤ → Bool
expires_early none issued_at = false
expires_early (some expires_at) issued_at = leb_ℤ expires_at issued_at

unfoldable pub create_delegation : Store → Delegation → Store × Result String Delegation
unfolding expires_early
create_delegation s d =
    if is_empty d.capabilities
    then (s, err "delegation requires capabilities")
    else if expires_early d.expires_at d.issued_at
    then (s, err "delegation expires before it is issued")
    else if d.delegator == d.delegate
    then (s, err "delegation requires two principals")
    else if contains_key d.id s
    then (s, err "duplicate delegation")
    else (insert d.id d s, ok d)

-- What a read of one tenant's entry returns.
of_tenant : TenantContext → Option Delegation → Result String (Option Delegation)
of_tenant tenant none = ok none
of_tenant tenant (some d) =
    if d.tenant_id == tenant.tenant_id then ok (some d) else err "tenant mismatch"

unfoldable pub get_delegation :
    Store → TenantContext → DelegationId → Result String (Option Delegation)
unfolding of_tenant
get_delegation s tenant id = of_tenant tenant (lookup id s)

unfoldable pub list_delegations_for_delegate :
    Store → TenantContext → PrincipalId → Result String (List Delegation)
list_delegations_for_delegate s tenant delegate = ok (
    sort_by (λ d e. str_le d.id e.id)
      (filter (λ d. d.tenant_id == tenant.tenant_id && d.delegate == delegate)
        (map (λ (id, d). d) s)))

revoke_found :
    Store → TenantContext → DelegationId → ℤ → Option Delegation → Store × Result String (Unit {0})
revoke_found s tenant id revoked_at none = (s, err "unknown delegation")
revoke_found s tenant id revoked_at (some d) =
    if d.tenant_id == tenant.tenant_id
    then (insert id (record d { revoked_at = some revoked_at }) s, ok tt)
    else (s, err "tenant mismatch")

unfoldable pub revoke_delegation :
    Store → TenantContext → DelegationId → ℤ → Store × Result String (Unit {0})
unfolding revoke_found
revoke_delegation s tenant id revoked_at = revoke_found s tenant id revoked_at (lookup id s)
