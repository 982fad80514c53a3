-- ===== src/Authz/Evaluator/RequestCheck/Explained.antt =====
-- The reason of a denial tells what is the case, and all that is the case is told.
use multi.Prelude.{
  true, Option, none, some, ◌≡◌, ◌≢◌, ◌↔◌, refl, ◌∙◌, ap, inl, inr, string_eq, ◌==◌, eq_of_==, ℤ,
  arith, Bool-cases, Option-cases,
}
use multi.Contract.Delegation.{Delegation}
use multi.Contract.Principal
use multi.Contract.Principal.{
  Principal, AgentState, principal_kind_eq, PrincipalKind-discrete, created, active, suspended,
  revoked, retired,
}
use multi.Contract.Tenant.{TenantContext}
use multi.Authz.Policy.{Effect, Policy, Rule, ResourceAttributes, AuthorizationRequest}
use multi.Authz.Reason.{
  DenialReason, tenant_mismatch, policy_denied, delegation_missing, delegation_scope_denied,
}
use multi.Authz.Policy.{effect_eq}
use multi.Authz.Decision.{AuthorizationDecision, denial_reason, is_allowed}
use multi.Authz.Evaluator.{agent_denial, delegation_denial, delegation_scope_matches}
use multi.Authz.Evaluator.RequestCheck.Decides.{
  Admitted, Authority, Authorized, evaluate_authorization_request_iff, first_match, whole,
  delegation_denial_iff,
}
use multi.Authz.Evaluator.RequestCheck.Denials.{
  Admitted-of_together, together_of, reason-discrete, denial_reason-tenant_mismatch_iff,
}
use multi.Authz.Evaluator.RequestCheck.Failures.{agent_denial-fails, delegation_denial-fails}
use multi.Authz.Evaluator.RequestCheck.Reasons.{
  Explains, tenants_differ, inactive_agent, denied_by_rule, without_rule, without_delegation,
  by_delegation_that_fails, out_of_scope, reason_of_whole, reason-of_Explains, inactive,
}

allowed-no_reason : (d : AuthorizationDecision) → is_allowed d ≡ true → denial_reason d ≡ none
unfolding is_allowed denial_reason
allowed-no_reason (AuthorizationDecision.allow g r a m c e) h = refl
allowed-no_reason (AuthorizationDecision.deny d k r a p m c e) h = cc h

module _ (clock : Option ℤ) (policy : Policy) (principal : Principal) (tenant : TenantContext)
    (delegation : Option Delegation) (request : AuthorizationRequest)
    (attributes : Option ResourceAttributes) (now : ℤ) where
  abbrev reason_here : Option DenialReason
  reason_here = reason_of_whole clock policy principal tenant delegation request attributes now

  abbrev match_here : Option Rule
  match_here = first_match clock policy principal tenant delegation request attributes now

  abbrev Here : DenialReason → Type 0
  Here = Explains clock policy principal tenant delegation request attributes now

  authorized-no_reason :
      (r : DenialReason)
      → Admitted policy principal tenant request attributes
      → Authority clock policy principal tenant delegation request attributes now
      → reason_here ≢ some r
  authorized-no_reason r a authority h =
      let w : Authorized clock (some policy) (some principal) (some tenant) delegation request
          attributes now =
        record {
          policy = policy;
          principal = principal;
          tenant = tenant;
          policy_given = refl;
          principal_given = refl;
          tenant_given = refl;
          admitted = a;
          authority = authority;
        } in
      let allows =
        (evaluate_authorization_request_iff clock (some policy) (some principal) (some tenant)
            delegation request attributes now).1
          w in
      cc (
        allowed-no_reason (whole clock policy principal tenant delegation request attributes now)
            allows,
        h,
      )

  given-Explains :
      (r : DenialReason) (d : Delegation)
      → Admitted policy principal tenant request attributes
      → principal.kind ≡ Principal.agent
      → match_here ≡ none
      → delegation ≡ some d
      → reason_here ≡ some r
      → Here r
  given-Explains r d a agent missing given h =
      elim (Option-cases (delegation_denial principal tenant d request.capability now)) [
        | inr (q, fails) ↦
            let why = delegation_denial-fails principal tenant d request.capability now q fails in
            let k =
              reason-of_Explains clock policy principal tenant delegation request attributes now q
                (by_delegation_that_fails a agent missing d given why) in
            let same : q ≡ r = cc (k, h) in
            by_delegation_that_fails a agent missing d given (rw same at why)
        | inl serves ↦
            let ds = (delegation_denial_iff principal tenant d request.capability now).0 serves in
            elim (Bool-cases (delegation_scope_matches d.resource_scope request attributes)) [
              | inl inside ↦
                  absurd (
                    authorized-no_reason r a (Authority.delegated d missing agent given ds inside)
                      h)
              | inr outside ↦
                  let k =
                    reason-of_Explains clock policy principal tenant delegation request attributes
                      now delegation_scope_denied
                      (out_of_scope refl a agent missing d given ds outside) in
                  out_of_scope (cc (k, h)) a agent missing d given ds outside
            ]
      ]

  without_match-Explains :
      (r : DenialReason)
      → Admitted policy principal tenant request attributes
      → match_here ≡ none
      → reason_here ≡ some r
      → Here r
  without_match-Explains r a missing h =
      elim (PrincipalKind-discrete principal.kind Principal.agent) [
        | no human ↦
            let k =
              reason-of_Explains clock policy principal tenant delegation request attributes now _
                (without_rule refl a human missing) in
            without_rule (cc (k, h)) a human missing
        | yes agent ↦ elim (Option-cases delegation) [
          | inl nothing ↦
              let k =
                reason-of_Explains clock policy principal tenant delegation request attributes now
                  delegation_missing (without_delegation refl a agent missing nothing) in
              without_delegation (cc (k, h)) a agent missing nothing
          | inr (d, given) ↦ given-Explains r d a agent missing given h
        ]
      ]

  Admitted-Explains :
      (r : DenialReason)
      → Admitted policy principal tenant request attributes
      → reason_here ≡ some r
      → Here r
  Admitted-Explains r a h = elim (Option-cases match_here) [
    | inl missing ↦ without_match-Explains r a missing h
    | inr (rule, found) ↦ elim (Bool-cases (rule.effect == Effect.deny)) [
      | inl denies ↦
          let effect = eq_of_== rule.effect Effect.deny denies in
          let k =
            reason-of_Explains clock policy principal tenant delegation request attributes now
              policy_denied (denied_by_rule refl a rule found effect) in
          denied_by_rule (cc (k, h)) a rule found effect
      | inr allows ↦
          absurd (authorized-no_reason r a (Authority.by_rule rule found (ground arith)) h)
    ]
  ]

  Explains-of_reason : (r : DenialReason) → reason_here ≡ some r → Here r
  Explains-of_reason r h = elim (reason-discrete reason_here (some tenant_mismatch)) [
    | yes e ↦ tenants_differ (cc (e, h)) (
        (denial_reason-tenant_mismatch_iff clock policy principal tenant delegation request
            attributes now).0
          e)
    | no other ↦
        let b = together_of clock policy principal tenant delegation request attributes now other in
        elim (Option-cases (agent_denial principal)) [
          | inr (q, stops) ↦
              let k =
                inactive clock policy principal tenant delegation request attributes now q b
                  stops in
              let same : q ≡ r = cc (k, h) in
              let (agent, fails) = agent_denial-fails principal r (stops ∙ ap some same) in
              inactive_agent b agent fails
          | inl passes ↦ Admitted-Explains r (Admitted-of_together b passes) h
        ]
  ]

  -- With a policy, a principal and a tenant, a request is denied for a reason exactly if what the
  -- reason tells is the case: that tenants or ids differ; else that the agent is not active; else
  -- that the first matching rule denies; else, of a human or a service, that no rule for the
  -- request was met or that there is none; and of an agent, that there is no delegation, or what
  -- is wrong with it, from whose it is down to its scope.
  pub denial_reason-Explains :
      (r : DenialReason)
      → (denial_reason (whole clock policy principal tenant delegation request attributes now)
          ≡ some r)
        ↔ Explains clock policy principal tenant delegation request attributes now r
  denial_reason-Explains r = (
    Explains-of_reason r,
    reason-of_Explains clock policy principal tenant delegation request attributes now r,
  )
