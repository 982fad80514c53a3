-- ===== src/Runtime/Recording.antt =====
-- crates/runtime/src/mesh.rs, `record_decision`, `attach_audit_event`, `decision_evidence` and
-- `remember_decision`: what is kept of a decision before it is handed out.
pub mod Described
use multi.Prelude.{
  ℕ, ◌+◌, String, ◌<>◌, Bool, true, false, Option, none, some, List, [], ◌∷◌, ◌++◌, length, ltb,
  if◌then◌else◌, ℤ, show_ℤ, Result, ok, err,
}
use multi.Contract.Delegation.{Delegation}
use multi.Contract.Ids.{
  AuditEventId, Capability, DelegationId, PrincipalId, RunId, SessionId, TaskId,
}
use multi.Contract.Run.{AgentRun}
use multi.Contract.Scope.{ResourceScope}
use multi.Authz.Policy.{Action as RequestAction, ResourceRef, opaque}
use multi.Authz.Reason
use multi.Authz.Reason.{DenialReason}
use multi.Authz.Decision
use multi.Authz.Decision.{
  AuthorizationDecision, GrantedCapability, allow, deny, grant, denial_reason,
}
use multi.Authz.Evidence.{AuthorizationEvidence, AuthorizationOutcome}
use multi.Authz.Outcome.{reason}
use multi.Dsl.Hash.{hash_of}
use multi.Storage.Audit.{AuditEventKind, authorization_granted, authorization_denied}
use multi.Runtime.Auditing.{
  AuditRecord, new_record, with_principal, with_session, with_delegation, meta, audit,
  last_audit_event_id,
}
use multi.Runtime.Mesh.{AuthMesh, Host}
use multi.Runtime.Stateful.{Stateful, gets, ◌>>=◌, ◌>>◌}
use multi.Runtime.Picking.{or_else}
use multi.Runtime.Running.{RuntimeContext}

-- `Option::map`
abbrev map_option : {A B : Type 0} → (A → B) → Option A → Option B
map_option f none = none
map_option f (some a) = some (f a)

-- `Option::and_then`
abbrev and_then : {A B : Type 0} → Option A → (A → Option B) → Option B
and_then none f = none
and_then (some a) f = f a

abbrev pub unwrap_or : {A : Type 0} → Option A → A → A
unwrap_or none a = a
unwrap_or (some b) a = b

-- `if let Some(value) = option { record = .. }`
abbrev pub with_some :
    {A : Type 0} → Option A → (A → AuditRecord → AuditRecord) → AuditRecord → AuditRecord
with_some none f r = r
with_some (some a) f r = f a r

unfoldable pub kind_of : AuthorizationDecision → AuditEventKind
kind_of (allow g r a m c e) = authorization_granted
kind_of (deny d k r a p m c e) = authorization_denied

resource_of : AuthorizationDecision → Option ResourceRef
resource_of (allow g r a m c e) = r
resource_of (deny d k r a p m c e) = r

requested_action : AuthorizationDecision → Option RequestAction
requested_action (allow g r a m c e) = a
requested_action (deny d k r a p m c e) = a

-- The delegation of the grant, or else that of the context.
unfoldable pub delegation_of : RuntimeContext → AuthorizationDecision → Option DelegationId
delegation_of context decision =
    or_else (and_then (grant decision) (λ g. g.delegation_id))
      (map_option (λ d. d.id) context.delegation)

unfoldable pub with_run_meta : AgentRun → AuditRecord → AuditRecord
unfolding meta
with_run_meta run r = meta "task_id" run.task.id (meta "run_id" run.id r)

unfoldable pub with_resource : ResourceRef → AuditRecord → AuditRecord
unfolding meta opaque
with_resource resource r =
    meta "resource_tenant" resource.tenant_id
      (meta "resource_type" resource.resource_type (meta "resource" (opaque resource) r))

unfoldable pub record_of_decision :
    RuntimeContext → Capability → AuthorizationDecision → AuditRecord
unfolding kind_of delegation_of with_run_meta with_resource resource_of requested_action new_record
    with_principal with_session with_delegation meta
record_of_decision context capability decision =
    let r =
      meta "capability" capability
        (with_principal context.principal.id (new_record (kind_of decision))) in
    let r = with_some context.session_id with_session r in
    let r = with_some context.run with_run_meta r in
    let r = with_some (delegation_of context decision) with_delegation r in
    let r = with_some (denial_reason decision) (λ d. meta "reason" (Reason.as_str d)) r in
    let r = with_some (resource_of decision) with_resource r in
    with_some (requested_action decision) (meta "action") r

unfoldable pub attach_audit_event : AuthorizationDecision → AuditEventId → AuthorizationDecision
attach_audit_event (allow g r a m c e) id = allow g r a m c (some id)
attach_audit_event (deny d k r a p m c e) id = deny d k r a p m c (some id)

unfoldable pub fallback_decision_id : RuntimeContext → Capability → ℤ → String
fallback_decision_id context capability now =
    "decision_"
    <> hash_of (
        context.tenant.tenant_id
        <> "|"
        <> context.principal.id
        <> "|"
        <> capability
        <> "|"
        <> show_ℤ now)

unfoldable pub decision_evidence :
    RuntimeContext → Capability → AuthorizationDecision → ℤ → ℕ → String → AuthorizationEvidence
unfolding fallback_decision_id
decision_evidence context capability (allow g resource action matched conditions event) now revision
      fingerprint =
    record {
      decision_id = unwrap_or event (fallback_decision_id context capability now);
      timestamp = now;
      principal = context.principal.id;
      tenant = context.tenant.tenant_id;
      capability = g.capability;
      action = action;
      resource = resource;
      policy_id = some g.policy_id;
      matched_rules = matched;
      conditions = conditions;
      authority = some g.authority;
      delegated_by = g.delegated_by;
      delegation_chain = g.delegation_chain;
      run_id = map_option (λ run. run.id) context.run;
      task_id = map_option (λ run. run.task.id) context.run;
      agent_principal = map_option (λ run. run.agent_principal) context.run;
      delegation_id = map_option (λ run. run.delegation_id) context.run;
      parent_run_id = and_then context.run (λ run. run.parent_run_id);
      execution_scope = map_option (λ run. run.resource_scope) context.run;
      authority_revision = revision;
      contract_fingerprint = fingerprint;
      decision = AuthorizationOutcome.allow;
      reason = reason (allow g resource action matched conditions event);
      audit_event_id = event;
    }
decision_evidence context capability
      (deny d denied resource action policy_id matched conditions event) now revision fingerprint =
    record {
      decision_id = unwrap_or event (fallback_decision_id context capability now);
      timestamp = now;
      principal = context.principal.id;
      tenant = context.tenant.tenant_id;
      capability = unwrap_or denied capability;
      action = action;
      resource = resource;
      policy_id = policy_id;
      matched_rules = matched;
      conditions = conditions;
      authority = none;
      delegated_by = map_option (λ run. run.delegator) context.run;
      delegation_chain = unwrap_or (map_option (λ run. run.delegation_chain) context.run) [];
      run_id = map_option (λ run. run.id) context.run;
      task_id = map_option (λ run. run.task.id) context.run;
      agent_principal = map_option (λ run. run.agent_principal) context.run;
      delegation_id = map_option (λ run. run.delegation_id) context.run;
      parent_run_id = and_then context.run (λ run. run.parent_run_id);
      execution_scope = map_option (λ run. run.resource_scope) context.run;
      authority_revision = revision;
      contract_fingerprint = fingerprint;
      decision = AuthorizationOutcome.deny;
      reason = reason (deny d denied resource action policy_id matched conditions event);
      audit_event_id = event;
    }

-- `decisions.remove(0)`
unfoldable pub without_first : {A : Type 0} → List A → List A
without_first [] = []
without_first (x ∷ xs) = xs

-- `decisions.push(evidence); if decisions.len() > 100 { decisions.remove(0); }`
unfoldable pub remembered : {A : Type 0} → List A → A → List A
unfolding without_first
remembered decisions evidence =
    let longer = decisions ++ evidence ∷ [] in
    if ltb 100 (length longer) then without_first longer else longer

module _ {Log : Type 0} where
  unfoldable pub remember_decision :
      RuntimeContext
      → Capability
      → AuthorizationDecision
      → ℤ
      → ℕ
      → AuthMesh Log
      → AuthMesh Log × AuthorizationDecision
  unfolding decision_evidence remembered
  remember_decision context capability decision now revision m = (
    record m {
      decisions =
          remembered m.decisions
            (decision_evidence context capability decision now revision m.config.fingerprint);
    },
    decision,
  )

  unfoldable pub record_decision :
      Host Log
      → RuntimeContext
      → Capability
      → AuthorizationDecision
      → ℤ
      → Stateful (AuthMesh Log) AuditEventId
  unfolding record_of_decision audit
  record_decision host context capability decision now = do
    audit host context.tenant (record_of_decision context capability decision) now
    gets (λ m. ok (last_audit_event_id m.audit_sequence context.tenant))
