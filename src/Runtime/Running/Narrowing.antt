-- ===== src/Runtime/Running/Narrowing.antt =====
-- A run stays within its delegation and its parent run.
use multi.Prelude.{
  ℕ, String, true, false, Option, none, some, List, [], ◌∷◌, ◌≡◌, refl, ◌∙◌, sym, ap, subst, inl,
  inr, In, contains, contains-In, string_eq, ℤ, ◌≤ℤ◌, Result, ok, ◌>>=◌, bind-ok, ok-cases,
  ok-injective, arith, Bool-cases,
}
use multi.Contract.Ids.{Capability, ExecutionCredentialId, PrincipalId, RunId}
use multi.Contract.Scope.{ResourceScope, is_subset_of}
use multi.Contract.Delegation.{Delegation, is_valid_at}
use multi.Contract.Run.{AgentRun}
use multi.Contract.Tenant.{TenantContext}
use multi.Authz.Policy.{AuthorizationRequest, ResourceAttributes}
use multi.Authz.Evaluator.{delegation_scope_matches}
use multi.Authz.Evaluator.Narrowing.{delegation_scope_matches-narrows}
use multi.Storage.Delegations.{get_delegation}
use multi.Runtime.Errors.{AuthError}
use multi.Runtime.Stores.{MeshStores}
use multi.Runtime.Running.{
  RunCreationRequest, RuntimeContext, checked_run, checked_run_for_request, resource_scope_matches,
  check_capabilities, check_agent, delegation_of_run, outlives, outside_delegation, outside_parent,
  checked_delegation, check_scope, check_parent, new_run, run_of_request,
}

-- Every capability of the list is in the scope.
abbrev pub Within : List Capability → List Capability → Type 0
Within scope cs = (c : Capability) → In c cs → In c scope

check_capabilities-Within :
    (scope : List Capability) (refusal : Capability → AuthError) (cs : List Capability)
    → check_capabilities scope refusal cs ≡ ok tt
    → Within scope cs
unfolding check_capabilities
check_capabilities-Within scope refusal [] h c m = absurd m
check_capabilities-Within scope refusal (k ∷ cs) h c m = elim (Bool-cases (contains scope k)) [
  | inr lacks ↦ cc (rw lacks at h)
  | inl holds ↦ elim m [
    | inl e ↦ rw (← e) (contains-In scope k holds)
    | inr n ↦ check_capabilities-Within scope refusal cs (rw holds at h) c n
  ]
]

-- The expiry is no later than the bound, if there is one.
abbrev pub NoLater : ℤ → Option ℤ → Type 0
NoLater t none = Unit
NoLater t (some bound) = t ≤ℤ bound

outlives-NoLater : (t : ℤ) (bound : Option ℤ) → outlives t bound ≡ false → NoLater t bound
unfolding outlives
outlives-NoLater t none h = tt
outlives-NoLater t (some bound) h = ground arith

-- The run is within the capabilities, the scope and the lifetime.
pub record IsWithin (run : AgentRun) (capabilities : List Capability) (scope : ResourceScope)
    (expires_at : Option ℤ) : Type 0 where
  pub within : Within capabilities run.capability_scope
  pub narrows : is_subset_of run.resource_scope scope ≡ true
  pub no_later : NoLater run.expires_at expires_at

-- The run rests on a delegation to its agent, valid at its start, and stays within it.
pub record RestsOn (s : MeshStores) (tenant : TenantContext) (agent_id : PrincipalId)
    (request : RunCreationRequest) (now : ℤ) (run : AgentRun) (d : Delegation) : Type 0 where
  pub found : delegation_of_run s tenant agent_id request now ≡ ok d
  pub to_agent : d.delegate ≡ run.agent_principal
  pub own_tenant : d.tenant_id ≡ run.tenant_id
  pub valid : is_valid_at d now ≡ true
  pub inside : IsWithin run d.capabilities d.resource_scope d.expires_at

module _ (s : MeshStores) (tenant : TenantContext) (request : RunCreationRequest) (now : ℤ) where
  own_found :
      (agent_id : PrincipalId) (d : Delegation) (o : Option Delegation)
      → checked_delegation tenant agent_id now o ≡ ok d
      → (d.delegate ≡ agent_id) × (d.tenant_id ≡ tenant.tenant_id) × (is_valid_at d now ≡ true)
  unfolding checked_delegation
  own_found agent_id d none h = cc
  own_found agent_id d (some e) h = ground arith

  own_delegation :
      (agent_id : PrincipalId) (d : Delegation)
      → delegation_of_run s tenant agent_id request now ≡ ok d
      → (d.delegate ≡ agent_id) × (d.tenant_id ≡ tenant.tenant_id) × (is_valid_at d now ≡ true)
  unfolding delegation_of_run
  own_delegation agent_id d h =
      elim (ok-cases (get_delegation s.delegations tenant request.delegation_id)) [
        | inr (e, k) ↦ cc (rw k at h)
        | inl (o, k) ↦ own_found agent_id d o (rw k at h)
      ]

  scope-IsWithin :
      (d : Delegation) (run : AgentRun)
      → run.capability_scope ≡ request.capabilities
      → run.resource_scope ≡ request.resource_scope
      → run.expires_at ≡ request.expires_at
      → check_scope tenant request d ≡ ok tt
      → IsWithin run d.capabilities d.resource_scope d.expires_at
  unfolding check_scope
  scope-IsWithin d run caps scope until h =
      elim (Bool-cases (outlives request.expires_at d.expires_at)) [
        | inl late ↦ cc (rw late at h)
        | inr lasting ↦
            elim (ok-cases
              (check_capabilities d.capabilities outside_delegation request.capabilities)) [
                | inr (e, k) ↦ cc (rw (lasting, k) at h)
                | inl (_, covered) ↦
                    let h2 = rw (lasting, covered) at h in
                    record {
                      within = rw caps (
                          check_capabilities-Within d.capabilities outside_delegation
                            request.capabilities covered);
                      narrows = rw scope (ground arith);
                      no_later =
                          rw until (outlives-NoLater request.expires_at d.expires_at lasting);
                    }
              ]
      ]

  parent-IsWithin :
      (id : RunId) (run : AgentRun)
      → run.capability_scope ≡ request.capabilities
      → run.resource_scope ≡ request.resource_scope
      → run.expires_at ≡ request.expires_at
      → check_parent s tenant request now (some id) ≡ ok tt
      → (parent : AgentRun) × (checked_run s tenant id now ≡ ok parent)
        × IsWithin run parent.capability_scope parent.resource_scope (some parent.expires_at)
  unfolding check_parent
  parent-IsWithin id run caps scope until h = elim (ok-cases (checked_run s tenant id now)) [
    | inr (e, k) ↦ cc (rw k at h)
    | inl (parent, k) ↦
        elim (ok-cases
          (check_capabilities parent.capability_scope outside_parent request.capabilities)) [
            | inr (e, l) ↦ cc (rw (k, l) at h)
            | inl (_, covered) ↦
                let h2 = rw (k, covered) at h in
                (
                  parent,
                  k,
                  record {
                    within = rw caps (
                        check_capabilities-Within parent.capability_scope outside_parent
                          request.capabilities covered);
                    narrows = rw scope (ground arith);
                    no_later = rw until (ground arith);
                  },
                )
          ]
  ]

module _ (credential_of : TenantContext → RunId → ExecutionCredentialId) (fresh : RunId)
    (s : MeshStores) (tenant : TenantContext) (agent_id : PrincipalId)
    (request : RunCreationRequest) (now : ℤ) (revision : ℕ) (fingerprint : String) where
  abbrev pub outcome : Result AuthError AgentRun
  outcome = run_of_request credential_of fresh s tenant agent_id request now revision fingerprint

  record Parts (run : AgentRun) : Type 0 where
    delegation : Delegation
    found : delegation_of_run s tenant agent_id request now ≡ ok delegation
    scoped : check_scope tenant request delegation ≡ ok tt
    parented : check_parent s tenant request now request.parent_run_id ≡ ok tt
    made :
        new_run credential_of fresh tenant agent_id request now revision fingerprint delegation
        ≡ run

  Parts-of : (run : AgentRun) → outcome ≡ ok run → Parts run
  unfolding run_of_request
  Parts-of run h =
      let made : Delegation → Result AuthError AgentRun =
        λ d. ok (new_run credential_of fresh tenant agent_id request now revision fingerprint d) in
      let parent = check_parent s tenant request now request.parent_run_id in
      let rest : Delegation → Result AuthError AgentRun =
        λ d. check_scope tenant request d >>= λ _. parent >>= λ _. made d in
      let (_, checked, h1) =
        bind-ok (check_agent s tenant agent_id request now)
          (λ _. delegation_of_run s tenant agent_id request now >>= rest) run h in
      let (d, found, h2) = bind-ok (delegation_of_run s tenant agent_id request now) rest run h1 in
      let (_, scoped, h3) =
        bind-ok (check_scope tenant request d) (λ _. parent >>= λ _. made d) run h2 in
      let (_, parented, h4) = bind-ok parent (λ _. made d) run h3 in
      record {
        delegation = d;
        found = found;
        scoped = scoped;
        parented = parented;
        made = ok-injective _ run (made d) refl h4;
      }

  -- A run that is granted rests on a delegation of the tenant to its agent that is valid at that time:
  -- the run's capabilities are among those of the delegation, its scope narrows the delegation's,
  -- and it ends no later.
  pub run_of_request-RestsOn :
      (run : AgentRun)
      → outcome ≡ ok run
      → (d : Delegation) × RestsOn s tenant agent_id request now run d
  unfolding new_run
  run_of_request-RestsOn run h =
      let p = Parts-of run h in
      let (to, own, valid) = own_delegation s tenant request now agent_id p.delegation p.found in
      (
        p.delegation,
        record {
          found = p.found;
          to_agent = to ∙ ap (λ r. r.agent_principal) p.made;
          own_tenant = own ∙ ap (λ r. r.tenant_id) p.made;
          valid = valid;
          inside =
              scope-IsWithin s tenant request now p.delegation run
                (ap (λ r. r.capability_scope) (sym p.made))
                (ap (λ r. r.resource_scope) (sym p.made)) (ap (λ r. r.expires_at) (sym p.made))
                p.scoped;
        },
      )

  -- A run that is granted under a parent run narrows it: the parent passes the check of a run at that
  -- time, and the new run's capabilities, scope and expiry are within the parent's.
  pub run_of_request-parent :
      (run : AgentRun) (id : RunId)
      → request.parent_run_id ≡ some id
      → outcome ≡ ok run
      → (parent : AgentRun) × (checked_run s tenant id now ≡ ok parent)
        × IsWithin run parent.capability_scope parent.resource_scope (some parent.expires_at)
  unfolding new_run
  run_of_request-parent run id named h =
      let p = Parts-of run h in
      parent-IsWithin s tenant request now id run (ap (λ r. r.capability_scope) (sym p.made))
        (ap (λ r. r.resource_scope) (sym p.made)) (ap (λ r. r.expires_at) (sym p.made))
        (ap (check_parent s tenant request now) (sym named) ∙ p.parented)

-- What the check of a run for a request finds.
checked_run_for_request-run :
    (s : MeshStores) (context : RuntimeContext) (id : RunId) (wanted : AuthorizationRequest)
    (attributes : Option ResourceAttributes) (now : ℤ) (run : AgentRun)
    → checked_run_for_request s context id wanted attributes now ≡ ok run
    → (checked_run s context.tenant id now ≡ ok run)
      × In wanted.capability run.capability_scope
      × (resource_scope_matches run.resource_scope wanted attributes ≡ true)
unfolding checked_run_for_request
checked_run_for_request-run s context id wanted attributes now run h =
    elim (ok-cases (checked_run s context.tenant id now)) [
      | inr (e, k) ↦ cc (rw k at h)
      | inl (r, k) ↦
          let h1 = rw k at h in
          let same : r ≡ run = ground arith in
          let covers : contains r.capability_scope wanted.capability ≡ true = ground arith in
          let matches : resource_scope_matches r.resource_scope wanted attributes ≡ true =
            ground arith in
          (
            k ∙ ap ok same,
            subst (λ q. In wanted.capability q.capability_scope) same
                (contains-In r.capability_scope wanted.capability covers),
            ap (λ q. resource_scope_matches q.resource_scope wanted attributes) (sym same)
                ∙ matches,
          )
    ]

-- What a granted run admits later is within the delegation that the run rests on: the delegation
-- lists the capability of the request and its scope matches the request.
pub checked_run_for_request-within :
    (s t : MeshStores) (tenant : TenantContext) (agent_id : PrincipalId)
    (request : RunCreationRequest) (now later : ℤ) (run : AgentRun) (d : Delegation)
    (context : RuntimeContext) (id : RunId) (wanted : AuthorizationRequest)
    (attributes : Option ResourceAttributes)
    → RestsOn s tenant agent_id request now run d
    → checked_run_for_request t context id wanted attributes later ≡ ok run
    → In wanted.capability d.capabilities
      × (delegation_scope_matches d.resource_scope wanted attributes ≡ true)
unfolding resource_scope_matches delegation_scope_matches
checked_run_for_request-within s t tenant agent_id request now later run d context id wanted
      attributes r h =
    let (checked, covers, matches) =
      checked_run_for_request-run t context id wanted attributes later run h in
    (
      r.inside.within wanted.capability covers,
      delegation_scope_matches-narrows run.resource_scope d.resource_scope wanted attributes
          r.inside.narrows matches,
    )
