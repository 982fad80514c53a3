-- ===== src/Storage/Audit.antt =====
-- crates/storage/src/audit_log.rs, the data; crates/storage/src/memory.rs, `MemoryAuditLog`.
pub mod Trail
use multi.Prelude.{
  ℕ, zero, suc, ◌≤◌, String, Bool, true, false, not, ◌&&◌, ◌||◌, Option, none, some, List, [], ◌∷◌,
  ◌++◌, ◌≡◌, ◌↔◌, refl, In, In-filter, In-filter_of, filter, length, Dict, ◌==◌, eq_of_==, ==_refl,
  string_eq, if◌then◌else◌, ℤ, ◌≤ℤ◌, leb_ℤ, ltb_ℤ, Result, ok, err, arith,
}
use multi.Contract.Ids.{AuditEventId, DelegationId, PrincipalId, RunId, SessionId, TenantId}
use multi.Contract.Tenant.{TenantContext}
use multi.Storage.Sorting.{str_le, sort_by, In-sort_by}

pub data AuditEventKind : Type 0 where
  login logout session_created session_revoked account_linked claims_updated authorization_granted
        authorization_denied delegation_created delegation_revoked agent_created agent_suspended
        agent_revoked agent_run_created agent_run_cancelled :
      AuditEventKind

pub data AuditDurability : Type 0 where
  required best_effort optional : AuditDurability

pub record AuditEvent : Type 0 where
  pub event_id : AuditEventId
  pub tenant_id : TenantId
  pub principal_id : Option PrincipalId
  pub delegator_id : Option PrincipalId
  pub session_id : Option SessionId
  pub delegation_id : Option DelegationId
  pub run_id : Option RunId
  pub kind : AuditEventKind
  pub timestamp : ℤ
  pub action : Option String
  pub resource : Option String
  pub decision : Option String
  pub reason : Option String
  pub authority_revision : Option ℕ
  pub contract_fingerprint : Option String
  pub durability : AuditDurability
  pub metadata : Dict String String

abbrev pub Store : Type 0
Store = List AuditEvent

unfoldable pub record_event : Store → TenantContext → AuditEvent → Store × Result String (Unit {0})
record_event s tenant event =
    if not (event.tenant_id == tenant.tenant_id)
    then (s, err "tenant mismatch")
    else (s ++ event ∷ [], ok tt)

-- `since.map(|since| event.timestamp >= since).unwrap_or(true)`
unfoldable pub is_since : Option ℤ → ℤ → Bool
is_since none timestamp = true
is_since (some since) timestamp = leb_ℤ since timestamp

-- The order of the pairs of timestamp and id.
unfoldable pub event_le : AuditEvent → AuditEvent → Bool
event_le a b =
    ltb_ℤ a.timestamp b.timestamp || (leb_ℤ a.timestamp b.timestamp && str_le a.event_id b.event_id)

-- `Vec::truncate`
unfoldable pub truncate {ℓ} : {A : Type ℓ} → ℕ → List A → List A
truncate zero xs = []
truncate (suc n) [] = []
truncate (suc n) (x ∷ xs) = x ∷ truncate n xs

-- `if limit > 0 { events.truncate(limit); }`
unfoldable pub limited {ℓ} : {A : Type ℓ} → ℕ → List A → List A
unfolding truncate
limited zero xs = xs
limited (suc n) xs = truncate (suc n) xs

unfoldable pub events : Store → TenantContext → Option ℤ → ℕ → Result String (List AuditEvent)
unfolding is_since event_le limited
events s tenant since limit = ok (
    limited limit (
      sort_by event_le (
        filter (λ e. is_since since e.timestamp)
          (filter (λ e. e.tenant_id == tenant.tenant_id) s))))
