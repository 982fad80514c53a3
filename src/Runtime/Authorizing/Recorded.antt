-- ===== src/Runtime/Authorizing/Recorded.antt =====
-- No authorization without a record of it.
use multi.Prelude.{ℕ, ◌+◌, ◌%◌, ◌^◌, true, ◌≡◌, refl, sym, ◌∙◌, ap, ℤ, String, Result, ok, err}
use multi.Contract.Ids.{AuditEventId, Capability}
use multi.Authz.Decision.{AuthorizationDecision, allow, deny, is_allowed}
use multi.Authz.Evaluator
use multi.Storage.Audit.{AuditEvent}
use multi.Runtime.Auditing.{event_of, audit, audit_event_id, last_audit_event_id}
use multi.Runtime.Errors.{AuthError, map_err}
use multi.Runtime.Mesh.{AuthMesh, Host}
use multi.Runtime.Stateful.{gets}
use multi.Runtime.Stateful.{chain-ok}
use multi.Runtime.Recording.{
  attach_audit_event, decision_evidence, record_decision, record_of_decision, remember_decision,
  remembered,
}
use multi.Runtime.Recording.Described.{event_for, Names, event_for-Names}
use multi.Runtime.Running.{RuntimeContext}
use multi.Runtime.Authorizing.{remembered_if, recorded}

module _ {Log : Type 0} (host : Host Log) (context : RuntimeContext) (capability : Capability)
    (now : ℤ) where
  abbrev event_at : AuthMesh Log → AuthorizationDecision → AuditEvent
  event_at m d =
      event_for (audit_event_id context.tenant m.audit_sequence) context m.config.fingerprint
        capability d now

  -- How a decision in a mesh `m` was kept in the mesh `n` before it was handed out as `handed`.
  pub record IsRecorded (decision : AuthorizationDecision) (revision : ℕ) (m n : AuthMesh Log)
      (handed : AuthorizationDecision) : Type 0 where
    pub event : AuditEvent
    pub names : Names context capability decision now event
    pub numbered : event.event_id ≡ audit_event_id context.tenant m.audit_sequence
    pub accepted : host.record_event m.audit context.tenant event ≡ (n.audit, ok tt)
    pub attached :
        handed ≡ attach_audit_event decision (last_audit_event_id n.audit_sequence context.tenant)
    pub counted : n.audit_sequence ≡ (m.audit_sequence + 1) % 2 ^ 64
    pub kept :
        n.decisions
        ≡ remembered m.decisions
            (decision_evidence context capability handed now revision m.config.fingerprint)

  remembered_if-allowed :
      (d : AuthorizationDecision) (revision : ℕ) (p : AuthMesh Log × Result AuthError AuditEventId)
      → is_allowed (remembered_if host context capability d now revision p).1 ≡ true
      → (id : AuditEventId) × (p.1 ≡ ok id)
        × (remembered_if host context capability d now revision p
            ≡ remember_decision context capability (attach_audit_event d id) now revision p.0)
  unfolding remembered_if is_allowed Evaluator.deny
  remembered_if-allowed d revision (n, err e) h = cc
  remembered_if-allowed d revision (n, ok id) h = (id, refl, refl)

  written : AuthMesh Log → AuthorizationDecision → AuthMesh Log × Result AuthError (Unit {0})
  written m d = audit host context.tenant (record_of_decision context capability d) now m

  -- What `audit` did, when it did it.
  accepted-of :
      (r : Log × Result String (Unit {0})) (f : String → AuthError)
      → map_err f r.1 ≡ ok tt
      → r ≡ (r.0, ok tt)
  accepted-of (log, ok t) f h = refl
  accepted-of (log, err e) f h = cc

  written-accepted :
      (m : AuthMesh Log) (d : AuthorizationDecision)
      → (written m d).1 ≡ ok tt
      → host.record_event m.audit context.tenant (event_at m d) ≡ ((written m d).0.audit, ok tt)
  unfolding written audit
  written-accepted m d h = accepted-of (host.record_event m.audit context.tenant (event_at m d)) _ h

  -- The mesh after a decision was written and remembered, and what is handed out.
  after : ℕ → AuthMesh Log → AuthorizationDecision → AuthMesh Log × AuthorizationDecision
  after revision m d =
      let n = (written m d).0 in
      remember_decision context capability
        (attach_audit_event d (last_audit_event_id n.audit_sequence context.tenant)) now revision n

  recorded-after :
      (d : AuthorizationDecision) (revision : ℕ) (m : AuthMesh Log)
      → is_allowed (recorded host context capability d now revision m).1 ≡ true
      → ((written m d).1 ≡ ok tt)
        × (recorded host context capability d now revision m ≡ after revision m d)
  unfolding recorded remembered_if record_decision written after
  recorded-after d revision m h =
      let (id, found, _) =
        remembered_if-allowed d revision (record_decision host context capability d now m) h in
      let (x, wrote, rest) =
        chain-ok (audit host context.tenant (record_of_decision context capability d) now)
          (λ _. gets (λ m. ok (last_audit_event_id m.audit_sequence context.tenant))) m id found in
      (wrote, ap (λ p. remembered_if host context capability d now revision p) rest)

  numbered-event :
      (m : AuthMesh Log) (d : AuthorizationDecision)
      → (event_at m d).event_id ≡ audit_event_id context.tenant m.audit_sequence
  unfolding event_of
  numbered-event m d = refl

  counted-after :
      (m : AuthMesh Log) (d : AuthorizationDecision)
      → (written m d).0.audit_sequence ≡ (m.audit_sequence + 1) % 2 ^ 64
  unfolding written audit
  counted-after m d = refl

  kept-after :
      (revision : ℕ) (m : AuthMesh Log) (d : AuthorizationDecision)
      → (after revision m d).0.decisions
        ≡ remembered m.decisions (
            decision_evidence context capability
              (after revision m d).1
              now
              revision
              m.config.fingerprint)
  unfolding after remember_decision written audit
  kept-after revision m d = refl

  after-IsRecorded :
      (d : AuthorizationDecision) (revision : ℕ) (m : AuthMesh Log)
      → (written m d).1 ≡ ok tt
      → IsRecorded d revision m (after revision m d).0 (after revision m d).1
  unfolding after remember_decision
  after-IsRecorded d revision m wrote = record {
    event = event_at m d;
    names = event_for-Names _ context m.config.fingerprint capability d now;
    numbered = numbered-event m d;
    accepted = written-accepted m d wrote;
    attached = refl;
    counted = counted-after m d;
    kept = kept-after revision m d;
  }

  pub recorded-IsRecorded :
      (d : AuthorizationDecision) (revision : ℕ) (m : AuthMesh Log)
      → is_allowed (recorded host context capability d now revision m).1 ≡ true
      → IsRecorded d revision m
          (recorded host context capability d now revision m).0
          (recorded host context capability d now revision m).1
  recorded-IsRecorded d revision m h =
      let (wrote, same) = recorded-after d revision m h in
      rw same (after-IsRecorded d revision m wrote)

  is_allowed-attach :
      (d : AuthorizationDecision) (id : AuditEventId)
      → is_allowed (attach_audit_event d id) ≡ is_allowed d
  unfolding attach_audit_event is_allowed
  is_allowed-attach (allow g r a m c e) id = refl
  is_allowed-attach (deny d k r a p m c e) id = refl

  pub recorded-allows :
      (d : AuthorizationDecision) (revision : ℕ) (m : AuthMesh Log)
      → is_allowed (recorded host context capability d now revision m).1 ≡ true
      → is_allowed d ≡ true
  recorded-allows d revision m h =
      let r = recorded-IsRecorded d revision m h in
      sym (is_allowed-attach d _) ∙ ap is_allowed (sym r.attached) ∙ h
