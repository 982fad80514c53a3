-- ===== src/Runtime/Auditing/Interleaving.antt =====
-- The id that a recorded decision carries is computed after its event was written, from the counter as
-- it stands then. Other threads may write events in between.
use multi.Prelude.{List, [], ◌∷◌, ◌≡◌, ℤ}
use multi.Contract.Tenant.{TenantContext}
use multi.Storage.Audit.{AuditEvent}
use multi.Runtime.Auditing.{AuditRecord, audit, last_audit_event_id}
use multi.Runtime.Mesh.{AuthMesh, Host}

pub record Write : Type 0 where
  pub tenant : TenantContext
  pub entry : AuditRecord
  pub at : ℤ

module _ {Log : Type 0} (host : Host Log) where
  -- The host with a list, newest first, of all the events that are handed to its log.
  abbrev pub watched : Host (List AuditEvent × Log)
  watched = record {
    clock = host.clock;
    mint = host.mint;
    record_event = λ (seen, log) tenant event.
        let (after, result) = host.record_event log tenant event in ((event ∷ seen, after), result);
  }

  abbrev pub Watched : Type 0
  Watched = AuthMesh (List AuditEvent × Log)

  unfoldable pub write : Watched → Write → Watched
  unfolding audit
  write m w = (audit watched w.tenant w.entry w.at m).0

  unfoldable pub write_all : Watched → List Write → Watched
  unfolding write
  write_all m [] = m
  write_all m (w ∷ ws) = write_all (write m w) ws

  -- The last of the writes.
  abbrev pub latest : Write → List Write → Write
  latest w [] = w
  latest w (next ∷ rest) = latest next rest

  -- The newest event that the log was handed is that of the write, and the id that is read now for
  -- its tenant is the id of this event.
  pub record IsNewest (w : Write) (m : Watched) : Type 0 where
    pub event : AuditEvent
    pub older : List AuditEvent
    pub handed : m.audit.0 ≡ event ∷ older
    pub of_tenant : event.tenant_id ≡ w.tenant.tenant_id
    pub of_kind : event.kind ≡ w.entry.kind
    pub by : event.principal_id ≡ w.entry.principal_id
    pub within : event.session_id ≡ w.entry.session_id
    pub at : event.timestamp ≡ w.at
    pub read : last_audit_event_id m.audit_sequence w.tenant ≡ event.event_id
