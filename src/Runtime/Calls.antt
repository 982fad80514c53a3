-- ===== src/Runtime/Calls.antt =====
-- crates/runtime/src/mesh.rs: the calls that change delegations, runs and agents, each with the
-- event that it leaves in the audit log.
pub mod States
use multi.Prelude.{
  ℕ, ◌+◌, ◌%◌, ◌^◌, String, ◌<>◌, Bool, Option, none, some, List, [], ◌∷◌, ℤ, show_ℕ, Result, ok,
  err, ok_or,
}
use multi.Contract.Ids.{DelegationId, ExecutionCredentialId, PrincipalId, RunId}
use multi.Contract.Delegation.{Delegation}
use multi.Contract.Principal.{AgentState, created, active, suspended, revoked, retired}
use multi.Contract.Run
use multi.Contract.Run.{AgentRun, RunStatus}
use multi.Contract.Tenant.{TenantContext}
use multi.Authz.Policy.{Policy}
use multi.Authz.Reason.{invalid_delegation, run_not_found, unknown_principal}
use multi.Dsl.Hash.{hash_of}
use multi.Storage.Audit.{
  AuditEventKind, delegation_created, delegation_revoked, agent_created, agent_suspended,
  agent_revoked, agent_run_created, agent_run_cancelled,
}
use multi.Storage.Delegations
use multi.Storage.Principals
use multi.Storage.Runs
use multi.Storage.Runs.{put_run, update_run}
use multi.Runtime.Auditing.{AuditRecord, audit, meta, new_record, with_delegation, with_principal}
use multi.Runtime.Delegating.{DelegationRequest, store_delegation}
use multi.Runtime.Errors.{
  AuthError, agent_lifecycle, auth_error, delegation_management, map_err, run_error,
}
use multi.Runtime.Mesh.{AuthMesh, Host, on_stores, policy, tenant}
use multi.Runtime.Running.{RunCreationRequest, run_of_request}
use multi.Runtime.Stateful.{Stateful, gets, lift, pure, ◌>>=◌, ◌>>◌}
use multi.Runtime.Stores.{MeshStores, agent_run}

unfoldable pub execution_credential : String → TenantContext → RunId → ExecutionCredentialId
execution_credential fingerprint tenant run_id =
    "exec_" <> hash_of (tenant.tenant_id <> "|" <> run_id <> "|" <> fingerprint)

unfoldable pub next_run_id : TenantContext → ℕ → RunId
next_run_id tenant sequence = "run_" <> hash_of (tenant.tenant_id <> "|" <> show_ℕ sequence)

-- The counter of runs is read only for a request without an id.
run_sequence_after : Option RunId → ℕ → ℕ
run_sequence_after none sequence = (sequence + 1) % 2 ^ 64
run_sequence_after (some id) sequence = sequence

abbrev run_record : AuditEventKind → AgentRun → AuditRecord
run_record kind run = meta "task_id" run.task.id (
    meta "run_id" run.id
      (with_delegation run.delegation_id (with_principal run.agent_principal (new_record kind))))

revoked_delegation_in : TenantContext → DelegationId → ℤ → Stateful MeshStores (Unit {0})
revoked_delegation_in tenant id now s =
    let (delegations, result) = Delegations.revoke_delegation s.delegations tenant id now in
    (
      record s { delegations = delegations },
      map_err (auth_error delegation_management invalid_delegation) result,
    )

abbrev run_write :
    MeshStores → (Runs.Store × Result String AgentRun) → MeshStores × Result AuthError AgentRun
run_write s (runs, result) =
    (record s { runs = runs }, map_err (λ message. run_error message run_not_found) result)

agent_state_in : TenantContext → PrincipalId → AgentState → Stateful MeshStores (Unit {0})
agent_state_in tenant agent state s =
    let (principals, result) = Principals.set_agent_state s.principals tenant agent state in
    (
      record s { principals = principals },
      map_err (auth_error agent_lifecycle unknown_principal) result,
    )

-- `match state`
kind_of_state : AgentState → AuditEventKind
kind_of_state suspended = agent_suspended
kind_of_state revoked = agent_revoked
kind_of_state _ = agent_created

abbrev cancelled_at : ℤ → AgentRun → AgentRun
cancelled_at now run = record run { status = Run.cancelled; cancelled_at = some now }

module _ {Log : Type 0} (host : Host Log) where
  unfoldable pub delegate : String → DelegationRequest → ℤ → Stateful (AuthMesh Log) Delegation
  unfolding store_delegation audit
  delegate tenant_id request now = do
    tenant ← gets (λ m. tenant m.stores tenant_id)
    delegation ← λ m.
        on_stores
          (λ s.
            store_delegation host.clock m.config.agents (policy m.config s tenant) s tenant request
              now)
          m
    audit host tenant
        (meta "delegator" delegation.delegator (
          with_delegation delegation.id
            (with_principal delegation.delegate (new_record delegation_created))))
        now
    pure delegation

  unfoldable pub revoke_delegation : String → DelegationId → ℤ → Stateful (AuthMesh Log) (Unit {0})
  unfolding revoked_delegation_in audit
  revoke_delegation tenant_id id now = do
    tenant ← gets (λ m. tenant m.stores tenant_id)
    on_stores (revoked_delegation_in tenant id now)
    audit host tenant (with_delegation id (new_record delegation_revoked)) now

  -- The id is drawn once the request has passed its checks, before the run is written.
  store_run :
      TenantContext → Option RunId → Result AuthError AgentRun → Stateful (AuthMesh Log) AgentRun
  unfolding run_sequence_after
  store_run tenant id (err e) m = (m, err e)
  store_run tenant id (ok run) m =
      let (stores, result) = run_write m.stores (put_run m.stores.runs run) in
      (record m { stores = stores; run_sequence = run_sequence_after id m.run_sequence }, result)

  unfoldable pub create_agent_run :
      String → PrincipalId → RunCreationRequest → ℤ → ℕ → String → Stateful (AuthMesh Log) AgentRun
  unfolding store_run run_of_request execution_credential next_run_id audit
  create_agent_run tenant_id agent_id request now revision fingerprint = do
    tenant ← gets (λ m. tenant m.stores tenant_id)
    run ← λ m.
        store_run tenant request.id
          (run_of_request (execution_credential m.config.fingerprint)
            (next_run_id tenant m.run_sequence) m.stores tenant agent_id request now revision
            fingerprint)
          m
    audit host tenant (run_record agent_run_created run) now
    pure run

  unfoldable pub cancel_agent_run : String → RunId → ℤ → Stateful (AuthMesh Log) AgentRun
  unfolding audit
  cancel_agent_run tenant_id run_id now = do
    tenant ← gets (λ m. tenant m.stores tenant_id)
    found ← gets (λ m. agent_run m.stores tenant run_id)
    run ← lift (ok_or found (run_error "run not found" run_not_found))
    run ← on_stores (λ s. run_write s (update_run s.runs tenant (cancelled_at now run)))
    audit host tenant (run_record agent_run_cancelled run) now
    pure run

  unfoldable pub set_agent_state :
      String → PrincipalId → AgentState → ℤ → Stateful (AuthMesh Log) (Unit {0})
  unfolding agent_state_in kind_of_state audit
  set_agent_state tenant_id agent state now = do
    tenant ← gets (λ m. tenant m.stores tenant_id)
    on_stores (agent_state_in tenant agent state)
    audit host tenant (with_principal agent (new_record (kind_of_state state))) now

  unfoldable pub suspend_agent : String → PrincipalId → ℤ → Stateful (AuthMesh Log) (Unit {0})
  unfolding set_agent_state
  suspend_agent tenant_id agent = set_agent_state tenant_id agent suspended

  unfoldable pub revoke_agent : String → PrincipalId → ℤ → Stateful (AuthMesh Log) (Unit {0})
  unfolding set_agent_state
  revoke_agent tenant_id agent = set_agent_state tenant_id agent revoked

  unfoldable pub retire_agent : String → PrincipalId → ℤ → Stateful (AuthMesh Log) (Unit {0})
  unfolding set_agent_state
  retire_agent tenant_id agent = set_agent_state tenant_id agent retired
