-- ===== src/Runtime/Authorizing/Granting.antt =====
-- The three questions that a mesh is asked, and what an answer that allows rests on.
use multi.Prelude.{
  ℕ, true, false, Option, some, ◌≡◌, refl, inl, inr, ℤ, Result, ok, err, arith, ok-cases, ◌>>=◌,
}
use multi.Contract.Ids.{Capability, RunId}
use multi.Contract.Delegation.{Delegation}
use multi.Contract.Run.{AgentRun}
use multi.Authz.Policy.{AuthorizationRequest, Policy, ResourceAttributes}
use multi.Authz.Reason.{DenialReason}
use multi.Authz.Decision.{AuthorizationDecision, is_allowed}
use multi.Authz.Evaluator
use multi.Authz.Evaluator.CapabilityCheck.{evaluate_capability}
use multi.Authz.Evaluator.RequestCheck.{evaluate_authorization_request}
use multi.Runtime.Errors.{AuthError}
use multi.Runtime.Mesh.{AuthMesh, Host, policy}
use multi.Runtime.Running.{RuntimeContext, checked_run_for_request}
use multi.Runtime.Stores.{delegations_for}
use multi.Runtime.Authorizing.{
  or_deny, read_authority, recorded, recorded_if, authorize_with_authority_revision,
  authorize_request_with_authority_revision, authorize_run_request_with_authority_revision,
  request_of_run, with_run, for_run, run_denial, context_of_run, id_of_policy,
}
use multi.Runtime.Authorizing.Recorded.{IsRecorded, recorded-IsRecorded, recorded-allows}

pub data Question : Type 0 where
  use_capability : Capability → Question
  make_request : AuthorizationRequest → Option ResourceAttributes → Question
  make_run_request : RunId → AuthorizationRequest → Option ResourceAttributes → Question

unfoldable pub capability_of : Question → Capability
capability_of (use_capability c) = c
capability_of (make_request request attributes) = request.capability
capability_of (make_run_request id request attributes) = request.capability

-- A decision that is reached without the engine is a denial.
or_deny-denies :
    {A B C : Type 0} (f : A → B → C) (p : Result AuthError A) (q : Result AuthError B)
    (no_p no_q : DenialReason) (d : AuthorizationDecision)
    → (or_deny p no_p >>= λ a. or_deny q no_q >>= λ b. ok (f a b)) ≡ err d
    → is_allowed d ≡ false
unfolding is_allowed Evaluator.deny
or_deny-denies f (err e) q no_p no_q d h = ground arith
or_deny-denies f (ok a) (err e) no_p no_q d h = ground arith
or_deny-denies f (ok a) (ok b) no_p no_q d h = cc

read_authority-denies :
    {Log : Type 0} (context : RuntimeContext) (c : Capability) (now : ℤ) (m : AuthMesh Log)
    (d : AuthorizationDecision)
    → read_authority context c now m ≡ err d
    → is_allowed d ≡ false
unfolding read_authority
read_authority-denies context c now m d h =
    or_deny-denies _ (policy m.config m.stores context.tenant)
      (delegations_for m.stores context.tenant context.principal.id) _ _ d h

module _ {Log : Type 0} (host : Host Log) where
  unfoldable pub ask :
      RuntimeContext → Question → ℤ → ℕ → AuthMesh Log → AuthMesh Log × AuthorizationDecision
  unfolding authorize_with_authority_revision authorize_request_with_authority_revision
      authorize_run_request_with_authority_revision
  ask context (use_capability c) = authorize_with_authority_revision host context c
  ask context (make_request request attributes) =
      authorize_request_with_authority_revision host context request attributes
  ask context (make_run_request id request attributes) =
      authorize_run_request_with_authority_revision host context id request attributes

  -- The engine allowed, by the stored policy and the picked delegation, what was asked.
  pub record IsDecided (context : RuntimeContext) (c : Capability)
      (engine : Policy → Option Delegation → AuthorizationDecision) (now : ℤ) (revision : ℕ)
      (m n : AuthMesh Log) (handed : AuthorizationDecision) : Type 0 where
    pub policy : Policy
    pub delegation : Option Delegation
    pub read : read_authority context c now m ≡ ok (policy, delegation)
    pub allows : is_allowed (engine policy delegation) ≡ true
    pub is_recorded : IsRecorded host context c now (engine policy delegation) revision m n handed

  abbrev engine_for :
      RuntimeContext
      → AuthorizationRequest
      → Option ResourceAttributes
      → ℤ
      → Policy
      → Option Delegation
      → AuthorizationDecision
  engine_for context request attributes now policy delegation =
      evaluate_authorization_request host.clock (some policy) (some context.principal)
        (some context.tenant) delegation request attributes now

  -- What an answer that allows rests on.
  abbrev pub Granted :
      RuntimeContext
      → Question
      → ℤ
      → ℕ
      → AuthMesh Log
      → AuthMesh Log
      → AuthorizationDecision
      → Type 0
  Granted context (use_capability c) now revision m n handed =
      IsDecided context c
        (λ policy delegation.
          evaluate_capability host.clock (some policy) (some context.principal)
            (some context.tenant) delegation c now)
        now revision m n handed
  Granted context (make_request request attributes) now revision m n handed =
      IsDecided context request.capability (engine_for context request attributes now) now revision
        m n handed
  Granted context (make_run_request id request attributes) now revision m n handed =
      (run : AgentRun) × (checked_run_for_request m.stores context id request attributes now
        ≡ ok run)
      × IsDecided (with_run context run) request.capability
          (engine_for (with_run context run) (request_of_run request run) attributes now) now
          revision m n handed

  -- The answer of the engine is handed out only where it is recorded.
  decided :
      (context : RuntimeContext) (c : Capability)
      (engine : Policy → Option Delegation → AuthorizationDecision) (now : ℤ) (revision : ℕ)
      (m : AuthMesh Log)
      → is_allowed
          (recorded_if host context c now revision
            (read_authority context c now m >>= λ (p, d). ok (engine p d))
            m).1
        ≡ true
      → IsDecided context c engine now revision m
          (recorded_if host context c now revision
            (read_authority context c now m >>= λ (p, d). ok (engine p d))
            m).0
          (recorded_if host context c now revision
            (read_authority context c now m >>= λ (p, d). ok (engine p d))
            m).1
  unfolding recorded_if
  decided context c engine now revision m h = elim (ok-cases (read_authority context c now m)) [
    | inr (d, e) ↦
        let allowed : is_allowed d ≡ true = rw e at h in
        absurd (ground (arith, read_authority-denies context c now m d e, allowed))
    | inl ((p, d), e) ↦
        let k : is_allowed (recorded host context c (engine p d) now revision m).1 ≡ true =
          rw e at h in
        rw e (record {
          policy = p;
          delegation = d;
          read = e;
          is_recorded = recorded-IsRecorded host context c now (engine p d) revision m k;
          allows = recorded-allows host context c now (engine p d) revision m k;
        })
  ]

  granted_run :
      (context : RuntimeContext) (id : RunId) (request : AuthorizationRequest)
      (attributes : Option ResourceAttributes) (now : ℤ) (revision : ℕ) (m : AuthMesh Log)
      (r : Result (DenialReason × Option AgentRun) AgentRun)
      → is_allowed (for_run host context request attributes now revision r m).1 ≡ true
      → (run : AgentRun) × (r ≡ ok run)
        × IsDecided
            (with_run context run)
            request.capability
            (engine_for (with_run context run) (request_of_run request run) attributes now)
            now
            revision
            m
            (for_run host context request attributes now revision r m).0
            (for_run host context request attributes now revision r m).1
  unfolding for_run authorize_request_with_authority_revision request_of_run run_denial is_allowed
  granted_run context id request attributes now revision m (ok run) h =
      (run, refl, decided (with_run context run) request.capability _ now revision m h)
  granted_run context id request attributes now revision m (err (reason, run)) h =
      let denied : false ≡ true =
        recorded-allows host (context_of_run context run) request.capability now
          (run_denial reason request (id_of_policy (policy m.config m.stores context.tenant)))
          revision m h in
      cc denied

  -- Whatever a mesh is asked, an answer that allows is the engine's, by the policy and the delegation
  -- that the mesh read, and, for a run, by a run that passed its check; the audit log accepted an
  -- event that names the principal, the session, the time and the capability, and the evidence is
  -- the newest of those remembered. If the log refuses the event, nothing is allowed.
  pub ask-Granted :
      (context : RuntimeContext) (q : Question) (now : ℤ) (revision : ℕ) (m : AuthMesh Log)
      → is_allowed (ask context q now revision m).1 ≡ true
      → Granted context q now revision m
          (ask context q now revision m).0
          (ask context q now revision m).1
  unfolding ask authorize_with_authority_revision authorize_request_with_authority_revision
      authorize_run_request_with_authority_revision
  ask-Granted context (use_capability c) now revision m h = decided context c _ now revision m h
  ask-Granted context (make_request request attributes) now revision m h =
      decided context request.capability _ now revision m h
  ask-Granted context (make_run_request id request attributes) now revision m h =
      granted_run context id request attributes now revision m
        (checked_run_for_request m.stores context id request attributes now) h
