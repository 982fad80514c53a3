-- ===== src/Runtime/Auditing.antt =====
-- crates/runtime/src/mesh.rs, `AuditRecord`, `audit` and the ids of its events.
pub mod Interleaving
use multi.Prelude.{
  ℕ, zero, suc, ◌+◌, ◌-◌, ◌%◌, ◌^◌, String, ◌<>◌, ◌||◌, Option, none, some, List, [], ◌∷◌, ◌++◌,
  find, Dict, lookup, insert, ◌==◌, string_eq, if◌then◌else◌, ℤ, show_ℕ, Result, ok, err,
}
use multi.Prelude.Parsing.{parse_u64}
use multi.Contract.Ids.{AuditEventId, DelegationId, PrincipalId, SessionId}
use multi.Contract.Tenant.{TenantContext}
use multi.Authz.Reason.{tenant_mismatch}
use multi.Dsl.Hash.{hash_of}
use multi.Storage.Audit.{
  AuditEvent, AuditEventKind, authorization_granted, authorization_denied, AuditDurability,
}
use multi.Runtime.Errors.{auth_error, map_err, runtime_context}
use multi.Runtime.Mesh.{AuthMesh, Host}
use multi.Runtime.Stateful.{Stateful}

pub record AuditRecord : Type 0 where
  pub kind : AuditEventKind
  pub principal_id : Option PrincipalId
  pub session_id : Option SessionId
  pub delegation_id : Option DelegationId
  pub metadata : List (String × String)

-- `AuditRecord::new`, and the methods that fill it.
unfoldable pub new_record : AuditEventKind → AuditRecord
new_record kind = record {
  kind = kind;
  principal_id = none;
  session_id = none;
  delegation_id = none;
  metadata = [];
}

unfoldable pub with_principal : PrincipalId → AuditRecord → AuditRecord
with_principal id r = record r { principal_id = some id }

unfoldable pub with_session : SessionId → AuditRecord → AuditRecord
with_session id r = record r { session_id = some id }

unfoldable pub with_delegation : DelegationId → AuditRecord → AuditRecord
with_delegation id r = record r { delegation_id = some id }

unfoldable pub meta : String → String → AuditRecord → AuditRecord
meta key value r = record r { metadata = r.metadata ++ (key, value) ∷ [] }

-- `match &record.kind`
unfoldable pub decision_of : AuditEventKind → Option String
decision_of authorization_granted = some "allow"
decision_of authorization_denied = some "deny"
decision_of _ = none

unfoldable pub value_of : Option (String × String) → Option String
value_of none = none
value_of (some (key, value)) = some value

-- The first of the entries under `action` or `capability`.
unfoldable pub action_of : List (String × String) → Option String
unfolding value_of
action_of metadata =
    value_of (find (λ (key, value). key == "action" || key == "capability") metadata)

revision_of : Option String → Option ℕ
revision_of none = none
revision_of (some value) = parse_u64 value

-- `into_iter().collect::<HashMap<_, _>>()`
collected : Dict String String → List (String × String) → Dict String String
collected d [] = d
collected d ((key, value) ∷ rest) = collected (insert key value d) rest

unfoldable pub event_of : AuditEventId → TenantContext → String → AuditRecord → ℤ → AuditEvent
unfolding decision_of action_of revision_of collected
event_of event_id tenant fingerprint r now = record {
  event_id = event_id;
  tenant_id = tenant.tenant_id;
  principal_id = r.principal_id;
  delegator_id = lookup "delegator" r.metadata;
  session_id = r.session_id;
  delegation_id = r.delegation_id;
  run_id = lookup "run_id" r.metadata;
  kind = r.kind;
  timestamp = now;
  action = action_of r.metadata;
  resource = lookup "resource" r.metadata;
  decision = decision_of r.kind;
  reason = lookup "reason" r.metadata;
  authority_revision = revision_of (lookup "authority_revision" r.metadata);
  contract_fingerprint = some fingerprint;
  durability = AuditDurability.required;
  metadata = collected [] r.metadata;
}

unfoldable pub audit_event_id : TenantContext → ℕ → AuditEventId
audit_event_id tenant sequence = "evt_" <> hash_of (tenant.tenant_id <> "|" <> show_ℕ sequence)

-- `load(..).saturating_sub(1)`
unfoldable pub last_audit_event_id : ℕ → TenantContext → AuditEventId
unfolding audit_event_id
last_audit_event_id sequence tenant = audit_event_id tenant (sequence - 1)

module _ {Log : Type 0} (host : Host Log) where
  -- The counter is a `u64` that wraps.
  unfoldable pub audit : TenantContext → AuditRecord → ℤ → Stateful (AuthMesh Log) (Unit {0})
  unfolding event_of audit_event_id
  audit tenant r now m =
      let event_id = audit_event_id tenant m.audit_sequence in
      let event = event_of event_id tenant m.config.fingerprint r now in
      let (log, result) = host.record_event m.audit tenant event in
      (
        record m { audit = log; audit_sequence = (m.audit_sequence + 1) % 2 ^ 64 },
        map_err (auth_error runtime_context tenant_mismatch) result,
      )
