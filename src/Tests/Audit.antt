-- ===== src/Tests/Audit.antt =====
-- Recordings, one of them for another tenant.
use multi.Prelude.{none, some, [], ◌∷◌, In, pos, refl, inl, inr, List, arith}
use multi.Contract.Tenant.{TenantContext}
use multi.Storage.Audit.{AuditEvent, login, required}
use multi.Storage.Audit.Trail.{trail, record_all, events-record_all}
use multi.Tests.Data.{acme, other_tenant}

abbrev sign_in : AuditEvent
sign_in = record {
  event_id = "e1";
  tenant_id = "acme";
  principal_id = some "alice";
  delegator_id = none;
  session_id = none;
  delegation_id = none;
  run_id = none;
  kind = login;
  timestamp = pos 20;
  action = none;
  resource = none;
  decision = none;
  reason = none;
  authority_revision = none;
  contract_fingerprint = none;
  durability = required;
  metadata = [];
}

abbrev entries : List (TenantContext × AuditEvent)
entries = (other_tenant, sign_in) ∷ (acme, sign_in) ∷ []

events-record_all_example : In sign_in (trail (record_all [] entries) acme (some (pos 20)) 0)
events-record_all_example =
    (events-record_all [] entries acme (some (pos 20)) sign_in).1
      (inr (acme, inr (inl refl), refl), refl, omega arith)
