-- ===== src/Contract/Delegation.antt =====
-- crates/contract/src/delegation.rs, `Delegation`: a time-bound, revocable grant and its status.
pub mod Status
use multi.Prelude.{
  Bool, true, false, Option, none, some, List, Eq, ◌==◌, ℤ, leb_ℤ, ltb_ℤ, if◌then◌else◌, is_some,
}
use multi.Contract.Ids.{DelegationId, PrincipalId, TenantId, Capability}
use multi.Contract.Scope.{ResourceScope}

pub data DelegationStatus : Type 0 where
  active pending expired revoked : DelegationStatus

unfoldable pub DelegationStatus-discrete : Discrete DelegationStatus
DelegationStatus-discrete = hlevel

instance abbrev pub delegation_status_eq : Eq DelegationStatus
delegation_status_eq = record { dec = DelegationStatus-discrete }

pub record Delegation : Type 0 where
  pub id : DelegationId
  pub delegator : PrincipalId
  pub delegate : PrincipalId
  pub tenant_id : TenantId
  pub capabilities : List Capability
  pub resource_scope : ResourceScope
  pub issued_at : ℤ
  pub expires_at : Option ℤ
  pub revoked_at : Option ℤ
  pub chain : List DelegationId

-- `expires_at.map(|expires_at| now >= expires_at).unwrap_or(false)`
unfoldable pub has_expired : Option ℤ → ℤ → Bool
has_expired none now = false
has_expired (some expires_at) now = leb_ℤ expires_at now

unfoldable pub status_at : Delegation → ℤ → DelegationStatus
unfolding has_expired
status_at d now =
    if is_some d.revoked_at
    then revoked
    else if ltb_ℤ now d.issued_at
    then pending
    else if has_expired d.expires_at now
    then expired
    else active

unfoldable pub is_valid_at : Delegation → ℤ → Bool
unfolding status_at
is_valid_at d now = status_at d now == active
