-- ===== src/Runtime/Recording/Described.antt =====
-- The audit record of a decision names who decided what.
use multi.Prelude.{
  String, Option, none, some, List, [], ◌∷◌, ◌++◌, ◌≡◌, refl, ◌∙◌, ap, string_eq, ℤ,
  String-discrete,
}
use multi.Contract.Ids.{AuditEventId, Capability, PrincipalId, SessionId}
use multi.Authz.Decision.{AuthorizationDecision, denial_reason}
use multi.Authz.Reason
use multi.Storage.Audit.{AuditEvent, AuditEventKind}
use multi.Runtime.Auditing.{
  AuditRecord, new_record, with_principal, with_session, with_delegation, meta, event_of, action_of,
  value_of,
}
use multi.Runtime.Recording.{
  with_some, with_run_meta, with_resource, kind_of, delegation_of, record_of_decision, resource_of,
  requested_action,
}
use multi.Runtime.Running.{RuntimeContext}

-- The record names the principal and the session, and the capability before all else.
record Describes (kind : AuditEventKind) (id : PrincipalId) (session : Option SessionId)
    (capability : Capability) (r : AuditRecord) : Type 0 where
  of_kind : r.kind ≡ kind
  by : r.principal_id ≡ some id
  within : r.session_id ≡ session
  rest : List (String × String)
  about : r.metadata ≡ ("capability", capability) ∷ rest

module _ {kind : AuditEventKind} {id : PrincipalId} {session : Option SessionId}
    {capability : Capability} where
  Describes-meta :
      (key value : String) (r : AuditRecord)
      → Describes kind id session capability r
      → Describes kind id session capability (meta key value r)
  unfolding meta
  Describes-meta key value r h = record {
    of_kind = h.of_kind;
    by = h.by;
    within = h.within;
    rest = h.rest ++ (key, value) ∷ [];
    about = ap (λ l. l ++ (key, value) ∷ []) h.about;
  }

  Describes-with_delegation :
      (d : String) (r : AuditRecord)
      → Describes kind id session capability r
      → Describes kind id session capability (with_delegation d r)
  unfolding with_delegation
  Describes-with_delegation d r h = record {
    of_kind = h.of_kind;
    by = h.by;
    within = h.within;
    rest = h.rest;
    about = h.about;
  }

  Describes-with_some :
      {A : Type 0} (o : Option A) (f : A → AuditRecord → AuditRecord) (r : AuditRecord)
      → ((a : A) (r : AuditRecord)
          → Describes kind id session capability r
          → Describes kind id session capability (f a r))
      → Describes kind id session capability r
      → Describes kind id session capability (with_some o f r)
  Describes-with_some none f r keep h = h
  Describes-with_some (some a) f r keep h = keep a r h

named_with : AuditEventKind → PrincipalId → Capability → AuditRecord
unfolding meta with_principal new_record
named_with kind id capability = meta "capability" capability (with_principal id (new_record kind))

Describes-with_session :
    (kind : AuditEventKind) (id : PrincipalId) (capability : Capability)
    (session : Option SessionId)
    → Describes kind id session capability
        (with_some session with_session (named_with kind id capability))
unfolding named_with with_session
Describes-with_session kind id capability none = record {
  of_kind = refl;
  by = refl;
  within = refl;
  rest = [];
  about = refl;
}
Describes-with_session kind id capability (some s) = record {
  of_kind = refl;
  by = refl;
  within = refl;
  rest = [];
  about = refl;
}

record_of_decision-Describes :
    (context : RuntimeContext) (capability : Capability) (decision : AuthorizationDecision)
    → Describes
        (kind_of decision)
        context.principal.id
        context.session_id
        capability
        (record_of_decision context capability decision)
unfolding record_of_decision named_with with_run_meta with_resource
record_of_decision-Describes context capability decision =
    Describes-with_some (requested_action decision) (meta "action") _ (Describes-meta "action") (
      Describes-with_some (resource_of decision) with_resource _
        (λ resource r h.
          Describes-meta "resource_tenant" _ _
            (Describes-meta "resource_type" _ _ (Describes-meta "resource" _ _ h)))
        (Describes-with_some (denial_reason decision) (λ d. meta "reason" (Reason.as_str d)) _
          (λ d. Describes-meta "reason" (Reason.as_str d))
          (Describes-with_some (delegation_of context decision) with_delegation _
            Describes-with_delegation
            (Describes-with_some context.run with_run_meta _
              (λ run r h. Describes-meta "task_id" _ _ (Describes-meta "run_id" _ _ h))
              (Describes-with_session (kind_of decision) context.principal.id capability
                context.session_id)))))

action_of-capability :
    (capability : Capability) (rest : List (String × String))
    → action_of (("capability", capability) ∷ rest) ≡ some capability
unfolding action_of value_of String-discrete
action_of-capability capability rest = refl

-- The event that is written for a decision.
abbrev pub event_for :
    AuditEventId → RuntimeContext → String → Capability → AuthorizationDecision → ℤ → AuditEvent
event_for event_id context fingerprint capability decision now =
    event_of event_id context.tenant fingerprint (record_of_decision context capability decision)
      now

-- The event is of the tenant and the time of the decision, and names its principal, its session,
-- its outcome and the capability, which stands where an action is looked for.
pub record Names (context : RuntimeContext) (capability : Capability)
    (decision : AuthorizationDecision) (now : ℤ) (event : AuditEvent) : Type 0 where
  pub of_kind : event.kind ≡ kind_of decision
  pub of_tenant : event.tenant_id ≡ context.tenant.tenant_id
  pub by : event.principal_id ≡ some context.principal.id
  pub within : event.session_id ≡ context.session_id
  pub action : event.action ≡ some capability
  pub at : event.timestamp ≡ now

pub event_for-Names :
    (event_id : AuditEventId) (context : RuntimeContext) (fingerprint : String)
    (capability : Capability) (decision : AuthorizationDecision) (now : ℤ)
    → Names context capability decision now
        (event_for event_id context fingerprint capability decision now)
unfolding event_of
event_for-Names event_id context fingerprint capability decision now =
    let h = record_of_decision-Describes context capability decision in
    record {
      of_kind = h.of_kind;
      of_tenant = refl;
      by = h.by;
      within = h.within;
      action = ap action_of h.about ∙ action_of-capability capability h.rest;
      at = refl;
    }
