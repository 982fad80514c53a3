-- ===== src/Runtime/Authorizing.antt =====
-- crates/runtime/src/mesh.rs, `authorize` and its companions: the decision of the engine, recorded
-- before it is handed out. The clock is that of the host.
pub mod Recorded
pub mod Granting
pub mod Remembered
use multi.Prelude.{ℕ, Option, none, some, List, [], ℤ, Result, ok, err, ◌>>=◌}
use multi.Contract.Ids.{AuditEventId, Capability, PolicyId, RunId}
use multi.Contract.Delegation.{Delegation}
use multi.Contract.Run.{AgentRun}
use multi.Authz.Policy.{AuthorizationRequest, Policy, ResourceAttributes}
use multi.Authz.Reason.{DenialReason, audit_unavailable, invalid_delegation, policy_not_found}
use multi.Authz.Decision.{AuthorizationDecision}
use multi.Authz.Evaluator.{deny, returned}
use multi.Authz.Evaluator.CapabilityCheck.{evaluate_capability}
use multi.Authz.Evaluator.RequestCheck.{evaluate_authorization_request}
use multi.Runtime.Errors.{AuthError}
use multi.Runtime.Mesh.{AuthMesh, Host, policy}
use multi.Runtime.Picking.{pick_delegation}
use multi.Runtime.Recording.{attach_audit_event, record_decision, remember_decision}
use multi.Runtime.Running.{RuntimeContext, checked_run_for_request}
use multi.Runtime.Stores.{delegations_for}

abbrev pub Authorization : Type 0 → Type 0
Authorization Log = AuthMesh Log → AuthMesh Log × AuthorizationDecision

-- `match result { Ok(value) => value, Err(_) => return deny(reason) }`
abbrev pub or_deny :
    {A : Type 0} → Result AuthError A → DenialReason → Result AuthorizationDecision A
or_deny (ok a) reason = ok a
or_deny (err e) reason = err (deny reason)

-- What the engine is asked: the policy of the tenant, and the picked delegation.
module _ {Log : Type 0} (context : RuntimeContext) (capability : Capability) (now : ℤ) where
  unfoldable pub read_authority :
      AuthMesh Log → Result AuthorizationDecision (Policy × Option Delegation)
  unfolding pick_delegation
  read_authority m = do
    policy ← or_deny (policy m.config m.stores context.tenant) policy_not_found
    delegations ←
        or_deny (delegations_for m.stores context.tenant context.principal.id) invalid_delegation
    ok (policy, pick_delegation delegations capability now)

module _ {Log : Type 0} (host : Host Log) (context : RuntimeContext) where
  unfoldable pub remembered_if :
      Capability
      → AuthorizationDecision
      → ℤ
      → ℕ
      → AuthMesh Log × Result AuthError AuditEventId
      → AuthMesh Log × AuthorizationDecision
  unfolding remember_decision attach_audit_event
  remembered_if capability decision now revision (m, err e) = (m, deny audit_unavailable)
  remembered_if capability decision now revision (m, ok id) =
      remember_decision context capability (attach_audit_event decision id) now revision m

  -- The decision is recorded, remembered and handed out; one that cannot be recorded is a denial.
  unfoldable pub recorded : Capability → AuthorizationDecision → ℤ → ℕ → Authorization Log
  unfolding remembered_if record_decision
  recorded capability decision now revision m =
      remembered_if capability decision now revision
        (record_decision host context capability decision now m)

  -- A decision that is reached without the engine is handed out as it is.
  unfoldable pub recorded_if :
      Capability → ℤ → ℕ → Result AuthorizationDecision AuthorizationDecision → Authorization Log
  unfolding recorded
  recorded_if capability now revision (err d) m = (m, d)
  recorded_if capability now revision (ok d) m = recorded capability d now revision m

  unfoldable pub authorize_with_authority_revision : Capability → ℤ → ℕ → Authorization Log
  unfolding read_authority recorded_if
  authorize_with_authority_revision capability now revision m =
      recorded_if capability now revision
        (read_authority context capability now m >>= λ (policy, delegation). ok (
          evaluate_capability host.clock (some policy) (some context.principal)
            (some context.tenant) delegation capability now))
        m

  unfoldable pub authorize : Capability → ℤ → Authorization Log
  unfolding authorize_with_authority_revision
  authorize capability now = authorize_with_authority_revision capability now 0

  unfoldable pub authorize_request_with_authority_revision :
      AuthorizationRequest → Option ResourceAttributes → ℤ → ℕ → Authorization Log
  unfolding read_authority recorded_if
  authorize_request_with_authority_revision request attributes now revision m =
      recorded_if request.capability now revision
        (read_authority context request.capability now m >>= λ (policy, delegation). ok (
          evaluate_authorization_request host.clock (some policy) (some context.principal)
            (some context.tenant) delegation request attributes now))
        m

  unfoldable pub authorize_request :
      AuthorizationRequest → Option ResourceAttributes → ℤ → Authorization Log
  unfolding authorize_request_with_authority_revision
  authorize_request request attributes now =
      authorize_request_with_authority_revision request attributes now 0

unfoldable pub with_run : RuntimeContext → AgentRun → RuntimeContext
with_run context run = record context { run = some run }

unfoldable pub request_of_run : AuthorizationRequest → AgentRun → AuthorizationRequest
request_of_run request run = record request {
  context = record (request.context) {
    run_id = some run.id;
    task_id = some run.task.id;
    agent_principal = some run.agent_principal;
    delegation_id = some run.delegation_id;
    delegation_chain = run.delegation_chain;
  };
}

unfoldable pub context_of_run : RuntimeContext → Option AgentRun → RuntimeContext
unfolding with_run
context_of_run context none = context
context_of_run context (some run) = with_run context run

-- `self.policy(..).ok().map(|policy| policy.id)`
id_of_policy : Result AuthError Policy → Option PolicyId
id_of_policy (err e) = none
id_of_policy (ok policy) = some policy.id

run_denial : DenialReason → AuthorizationRequest → Option PolicyId → AuthorizationDecision
run_denial reason request policy_id =
    AuthorizationDecision.deny reason (some request.capability) request.resource
      (some request.action) policy_id [] [] none

module _ {Log : Type 0} (host : Host Log) (context : RuntimeContext) where
  unfoldable pub for_run :
      AuthorizationRequest
      → Option ResourceAttributes
      → ℤ
      → ℕ
      → Result (DenialReason × Option AgentRun) AgentRun
      → Authorization Log
  unfolding context_of_run id_of_policy run_denial request_of_run with_run recorded
      authorize_request_with_authority_revision
  for_run request attributes now revision (ok run) m =
      authorize_request_with_authority_revision host (with_run context run)
        (request_of_run request run) attributes now revision m
  for_run request attributes now revision (err (reason, run)) m =
      recorded host (context_of_run context run) request.capability
        (run_denial reason request (id_of_policy (policy m.config m.stores context.tenant))) now
        revision m

  unfoldable pub authorize_run_request_with_authority_revision :
      RunId → AuthorizationRequest → Option ResourceAttributes → ℤ → ℕ → Authorization Log
  unfolding for_run checked_run_for_request
  authorize_run_request_with_authority_revision run_id request attributes now revision m =
      for_run request attributes now revision
        (checked_run_for_request m.stores context run_id request attributes now) m
