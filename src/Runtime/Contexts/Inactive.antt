-- ===== src/Runtime/Contexts/Inactive.antt =====
-- What an agent that is not active can no longer do.
use multi.Prelude.{
  ℕ, String, Bool, true, false, Option, some, ◌≡◌, refl, ◌==◌, string_eq, ℤ, leb_ℤ, not, Result, ok,
  err, is_ok, ◌>>=◌, bind-ok, ok-injective,
}
use multi.Contract.Ids.{ExecutionCredentialId, PrincipalId, RunId}
use multi.Contract.Claims.{Identity}
use multi.Contract.Principal
use multi.Contract.Principal.{
  AgentState, AgentState-discrete, Principal, PrincipalKind-discrete, agent_state_eq,
  principal_kind_eq, created, active, suspended, revoked, retired,
}
use multi.Contract.Tenant.{TenantContext}
use multi.Authz.Policy.{Policy}
use multi.Storage.Identities.{get_identity}
use multi.Storage.Principals.{resolve_external_identity}
use multi.Storage.Sessions.{Session}
use multi.Runtime.Contexts.{principal_of_session}
use multi.Runtime.Delegating.{DelegationRequest, check_request, delegation_of_request, delegator_of}
use multi.Runtime.Errors.{AuthError, delegation_error, run_error}
use multi.Authz.Evaluator.{return_if}
use multi.Authz.Reason.{run_exceeds_delegation, run_expired, run_not_found}
use multi.Contract.Scope.{is_empty}
use multi.Runtime.Running.{RunCreationRequest, check_agent, run_of_request}
use multi.Runtime.Stores.{MeshStores, assert_principal_is_usable, principal}

pub unusable :
    (p : Principal) (state : AgentState)
    → p.kind ≡ Principal.agent
    → p.agent_state ≡ some state
    → (state == active) ≡ false
    → is_ok (assert_principal_is_usable p) ≡ false
unfolding assert_principal_is_usable PrincipalKind-discrete AgentState-discrete
unusable p created agent set h = rw agent (rw set refl)
unusable p active agent set h = cc h
unusable p suspended agent set h = rw agent (rw set refl)
unusable p revoked agent set h = rw agent (rw set refl)
unusable p retired agent set h = rw agent (rw set refl)

-- The agent is there, and is not usable.
pub record IsOff (s : MeshStores) (t : TenantContext) (agent : PrincipalId) : Type 0 where
  pub p : Principal
  pub found : principal s t agent ≡ ok p
  pub off : is_ok (assert_principal_is_usable p) ≡ false

never : {A : Type 0} (m : Result AuthError A) → ((a : A) → m ≡ ok a → ⊥) → is_ok m ≡ false
never (ok a) h = absurd (h a refl)
never (err e) h = refl

IsOff-assert :
    (s : MeshStores) (t : TenantContext) (agent : PrincipalId) (q : Principal) (u : Unit {0})
    → IsOff s t agent
    → principal s t agent ≡ ok q
    → assert_principal_is_usable q ≡ ok u
    → ⊥
IsOff-assert s t agent q u h k l =
    let same = ok-injective q h.p _ k h.found in
    let on : is_ok (assert_principal_is_usable h.p) ≡ true = rw (← same) (rw l refl) in
    cc (on, h.off)

pub IsOff-run :
    (credential_of : TenantContext → RunId → ExecutionCredentialId) (fresh : RunId) (s : MeshStores)
    (t : TenantContext) (agent : PrincipalId) (request : RunCreationRequest) (now : ℤ)
    (revision : ℕ) (fingerprint : String)
    → IsOff s t agent
    → is_ok (run_of_request credential_of fresh s t agent request now revision fingerprint) ≡ false
unfolding run_of_request check_agent
IsOff-run credential_of fresh s t agent request now revision fingerprint h = never _ λ run is_run.
    let (u, checked, _) = bind-ok (check_agent s t agent request now) _ run is_run in
    let (u1, _, k1) =
      bind-ok
        (return_if (is_empty request.capabilities)
          (run_error "run task must request structured capabilities" run_exceeds_delegation))
        _ u checked in
    let (u2, _, k2) =
      bind-ok
        (return_if (leb_ℤ request.expires_at now)
          (run_error "run expires before it can be used" run_expired))
        _ u k1 in
    let (q, found, k3) = bind-ok (principal s t agent) _ u k2 in
    let (u4, _, k4) =
      bind-ok
        (return_if (not (q.kind == Principal.agent))
          (run_error "run principal must be an agent" run_not_found))
        _ u k3 in
    IsOff-assert s t agent q u h found k4

pub IsOff-delegation :
    (clock : Option ℤ) (agents : Bool) (policy : Result AuthError Policy) (s : MeshStores)
    (t : TenantContext) (request : DelegationRequest) (now : ℤ)
    → IsOff s t request.delegate
    → is_ok (delegation_of_request clock agents policy s t request now) ≡ false
unfolding delegation_of_request delegator_of delegation_error
IsOff-delegation clock agents policy s t request now h = never _ λ d is_granted.
    let (u, _, k) = bind-ok (check_request agents request now) _ d is_granted in
    let (delegator, found, _) = bind-ok (delegator_of s t request) _ d k in
    let (p, _, k1) = bind-ok (principal s t request.delegator) _ delegator found in
    let (q, is_delegate, k2) = bind-ok (principal s t request.delegate) _ delegator k1 in
    let (u3, _, k3) =
      bind-ok
        (return_if (q.kind == Principal.human)
          (delegation_error "delegation targets an agent or a service"))
        _ delegator k2 in
    let (u4, usable, _) = bind-ok (assert_principal_is_usable q) _ delegator k3 in
    IsOff-assert s t request.delegate q u4 h is_delegate usable

stopped :
    {A B : Type 0} (m : Result AuthError A) (f : A → Result AuthError B)
    → is_ok m ≡ false
    → is_ok (m >>= f) ≡ false
stopped (ok a) f h = cc h
stopped (err e) f h = refl

pub IsOff-session :
    (s : MeshStores) (t : TenantContext) (agent : PrincipalId) (session : Session) (i : Identity)
    → IsOff s t agent
    → get_identity s.identities t session.identity_id ≡ ok (some i)
    → resolve_external_identity s.principals t i.provider i.provider_subject ≡ some agent
    → is_ok (principal_of_session s t session) ≡ false
unfolding principal_of_session
IsOff-session s t agent session i h identified bound =
    rw identified (rw bound (rw h.found (stopped (assert_principal_is_usable h.p) _ h.off)))
