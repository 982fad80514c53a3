-- ===== src/Runtime/Calls/States.antt =====
-- What an agent can no longer do once its state was set.
use multi.Prelude.{
  ℕ, String, Bool, false, some, ◌≡◌, refl, sym, ◌∙◌, ap, ◌==◌, string_eq, ℤ, Result, ok, is_ok,
  ok-injective,
}
use multi.Contract.Ids.{ExecutionCredentialId, PrincipalId, RunId}
use multi.Contract.Claims.{Identity}
use multi.Contract.Principal.{AgentState, agent_state_eq, principal_kind_eq, active}
use multi.Contract.Tenant.{TenantContext}
use multi.Authz.Policy.{Policy}
use multi.Storage.Identities.{get_identity}
use multi.Storage.Principals
use multi.Storage.Principals.{ExternalBinding, get_principal, resolve_external_identity}
use multi.Storage.Principals.Bindings.{bindings-set_agent_state}
use multi.Storage.Principals.Reading.{get_principal-set_agent_state}
use multi.Storage.Sessions.{Session}
use multi.Runtime.Auditing.{audit, new_record, with_principal}
use multi.Runtime.Contexts.{principal_of_session}
use multi.Runtime.Delegating.{DelegationRequest, delegation_of_request}
use multi.Runtime.Errors.{AuthError}
use multi.Runtime.Mesh.{AuthMesh, Host, on_stores, tenant}
use multi.Runtime.Running.{RunCreationRequest, run_of_request}
use multi.Runtime.Stateful.{Stateful, gets, chain-ok, ◌>>=◌}
use multi.Runtime.Stores.{principal}
use multi.Runtime.Calls.{agent_state_in, kind_of_state, set_agent_state}
use multi.Runtime.Contexts.Inactive.{IsOff, IsOff-run, IsOff-delegation, IsOff-session, unusable}
use multi.Runtime.Resolution.Provisioning.Provisioned.{map_err-ok}

module _ {Log : Type 0} (host : Host Log) (agent : PrincipalId) (state : AgentState) (now : ℤ) where
  state_written : TenantContext → Stateful (AuthMesh Log) (Unit {0})
  state_written t = on_stores (agent_state_in t agent state)

  state_noted : TenantContext → Stateful (AuthMesh Log) (Unit {0})
  state_noted t = audit host t (with_principal agent (new_record (kind_of_state state))) now

  on_state_tenant : TenantContext → Stateful (AuthMesh Log) (Unit {0})
  unfolding state_written state_noted
  on_state_tenant t = state_written t >>= λ _. state_noted t

  -- A call that ends well has set the state in the store of the principals.
  set_agent_state-stores :
      (tenant_id : String) (m : AuthMesh Log) (t : TenantContext)
      → tenant m.stores tenant_id ≡ ok t
      → (set_agent_state host tenant_id agent state now m).1 ≡ ok tt
      → ((Principals.set_agent_state m.stores.principals t agent state).1 ≡ ok tt)
        × ((set_agent_state host tenant_id agent state now m).0.stores ≡ record (m.stores) {
          principals = (Principals.set_agent_state m.stores.principals t agent state).0;
        })
  unfolding set_agent_state on_state_tenant state_written state_noted agent_state_in audit
  set_agent_state-stores tenant_id m t own h =
      let (t2, found, a) =
        chain-ok (gets (λ m. tenant m.stores tenant_id)) on_state_tenant m tt h in
      let same = ok-injective t2 t _ found own in
      let (u, wrote, b) =
        chain-ok (state_written t2) (λ _. state_noted t2) m tt (ap (λ p. p.1) (sym a) ∙ h) in
      rw (← same) (map_err-ok _ _ tt wrote, ap (λ p. p.0.stores) (a ∙ b))

  -- Once its state was set to one that is not active, an agent is off.
  set_agent_state-IsOff :
      (tenant_id : String) (m : AuthMesh Log) (t : TenantContext)
      → tenant m.stores tenant_id ≡ ok t
      → (set_agent_state host tenant_id agent state now m).1 ≡ ok tt
      → (state == active) ≡ false
      → IsOff (set_agent_state host tenant_id agent state now m).0.stores t agent
  unfolding principal
  set_agent_state-IsOff tenant_id m t own h off =
      let (set, stores) = set_agent_state-stores tenant_id m t own h in
      let (p, is_agent, has_state, found) =
        get_principal-set_agent_state m.stores.principals t agent state set in
      rw stores
        (record { p = p; found = rw found refl; off = unusable p state is_agent has_state off })

  -- Once a call has set an agent to a state that is not active, no session of an identity that is bound to
  -- the agent leads to a principal, no run is granted to it, and nothing is delegated to it, at
  -- any time, whatever is asked for.
  pub set_agent_state-refused :
      (tenant_id : String) (m : AuthMesh Log) (t : TenantContext) (session : Session) (i : Identity)
      (credential_of : TenantContext → RunId → ExecutionCredentialId) (fresh : RunId)
      (request : RunCreationRequest) (later : ℤ) (revision : ℕ) (fingerprint : String)
      (agents : Bool) (policy : Result AuthError Policy) (passed : DelegationRequest)
      → tenant m.stores tenant_id ≡ ok t
      → (set_agent_state host tenant_id agent state now m).1 ≡ ok tt
      → (state == active) ≡ false
      → get_identity m.stores.identities t session.identity_id ≡ ok (some i)
      → resolve_external_identity m.stores.principals t i.provider i.provider_subject ≡ some agent
      → (is_ok (
            principal_of_session
              (set_agent_state host tenant_id agent state now m).0.stores
              t
              session)
          ≡ false)
        × (is_ok (
              run_of_request credential_of fresh
                (set_agent_state host tenant_id agent state now m).0.stores
                t
                agent
                request
                later
                revision
                fingerprint)
            ≡ false)
        × (is_ok (
              delegation_of_request host.clock agents policy
                (set_agent_state host tenant_id agent state now m).0.stores
                t
                (record passed { delegate = agent })
                later)
            ≡ false)
  unfolding resolve_external_identity
  set_agent_state-refused tenant_id m t session i credential_of fresh request later revision
        fingerprint agents policy passed own h off identified bound =
      let n = (set_agent_state host tenant_id agent state now m).0.stores in
      let (set, stores) = set_agent_state-stores tenant_id m t own h in
      let is_off = set_agent_state-IsOff tenant_id m t own h off in
      (
        IsOff-session n t agent session i is_off
            (ap (λ s. get_identity s.identities t session.identity_id) stores ∙ identified)
            (ap (λ s. resolve_external_identity s.principals t i.provider i.provider_subject) stores
              ∙ rw (bindings-set_agent_state m.stores.principals t agent state) bound),
        IsOff-run credential_of fresh n t agent request later revision fingerprint is_off,
        IsOff-delegation host.clock agents policy n t (record passed { delegate = agent }) later
            is_off,
      )
