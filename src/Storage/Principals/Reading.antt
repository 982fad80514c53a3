-- ===== src/Storage/Principals/Reading.antt =====
-- What a reader of the store gets after a principal was written, and after its state was set.
use multi.Prelude.{
  String, Option, none, some, ◌≡◌, refl, ap, inl, inr, lookup, lookup-insert_self, ◌==◌, ==_refl,
  string_eq, ℤ, Result, ok, err, arith, Bool-cases,
}
use multi.Contract.Ids.{PrincipalId, ProviderName, ProviderSubject}
use multi.Contract.Principal
use multi.Contract.Principal.{Principal, AgentState, principal_kind_eq}
use multi.Contract.Tenant.{TenantContext}
use multi.Storage.Principals.{
  Store, ExternalBinding, put_principal, get_principal, of_tenant, bind_external_identity,
  bind_checked, bind_found, set_agent_state, set_state_found,
}

bind_found-principals :
    (s : Store) (tenant : TenantContext) (connector : ProviderName) (subject : ProviderSubject)
    (id : PrincipalId) (at : ℤ) (o : Option ExternalBinding)
    → (bind_found s tenant connector subject id at o).0.principals ≡ s.principals
unfolding bind_found
bind_found-principals s tenant connector subject id at none = refl
bind_found-principals s tenant connector subject id at (some b) = ground arith

bind_checked-principals :
    (s : Store) (tenant : TenantContext) (connector : ProviderName) (subject : ProviderSubject)
    (id : PrincipalId) (at : ℤ) (r : Result String (Option Principal))
    → (bind_checked s tenant connector subject id at r).0.principals ≡ s.principals
unfolding bind_checked
bind_checked-principals s tenant connector subject id at (err e) = refl
bind_checked-principals s tenant connector subject id at (ok none) = refl
bind_checked-principals s tenant connector subject id at (ok (some p)) =
    bind_found-principals s tenant connector subject id at _

pub bind_external_identity-principals :
    (s : Store) (tenant : TenantContext) (connector : ProviderName) (subject : ProviderSubject)
    (id : PrincipalId) (at : ℤ)
    → (bind_external_identity s tenant connector subject id at).0.principals ≡ s.principals
unfolding bind_external_identity
bind_external_identity-principals s tenant connector subject id at =
    bind_checked-principals s tenant connector subject id at (get_principal s tenant id)

-- A principal of the tenant that was written is read back.
pub get_principal-put :
    (s : Store) (tenant : TenantContext) (p : Principal)
    → p.tenant_id ≡ tenant.tenant_id
    → get_principal (put_principal s p).0 tenant p.id ≡ ok (some p)
unfolding get_principal put_principal of_tenant
get_principal-put s tenant p own =
    rw (lookup-insert_self p.id p s.principals) (rw own (rw (==_refl tenant.tenant_id) refl))

pub get_principal-principals :
    (s t : Store) (tenant : TenantContext) (id : PrincipalId)
    → s.principals ≡ t.principals
    → get_principal s tenant id ≡ get_principal t tenant id
unfolding get_principal
get_principal-principals s t tenant id same = ap (λ d. of_tenant tenant (lookup id d)) same

set_state_found-ok :
    (s : Store) (tenant : TenantContext) (id : PrincipalId) (state : AgentState)
    (o : Option Principal)
    → (set_state_found s tenant id state o).1 ≡ ok tt
    → (p : Principal) × (p.tenant_id ≡ tenant.tenant_id)
      × (p.kind ≡ Principal.agent)
      × (p.agent_state ≡ some state)
      × (lookup id (set_state_found s tenant id state o).0.principals ≡ some p)
unfolding set_state_found
set_state_found-ok s tenant id state none h = cc
set_state_found-ok s tenant id state (some p) h =
    elim (Bool-cases (p.tenant_id == tenant.tenant_id)) [
      | inr other ↦ let k : Result.err "tenant mismatch" ≡ Result.ok tt = rw other at h in cc k
      | inl own ↦ elim (Bool-cases (p.kind == Principal.agent)) [
        | inr other ↦
            let k : Result.err "principal is not an agent" ≡ Result.ok tt = rw (own, other) at h in
            cc k
        | inl agent ↦
            rw (own, agent)
              (
                record p { agent_state = some state },
                ground arith,
                ground arith,
                refl,
                lookup-insert_self id (record p { agent_state = some state }) s.principals,
              )
      ]
    ]

-- An agent whose state was set is read back with it.
pub get_principal-set_agent_state :
    (s : Store) (tenant : TenantContext) (id : PrincipalId) (state : AgentState)
    → (set_agent_state s tenant id state).1 ≡ ok tt
    → (p : Principal) × (p.kind ≡ Principal.agent)
      × (p.agent_state ≡ some state)
      × (get_principal (set_agent_state s tenant id state).0 tenant id ≡ ok (some p))
unfolding set_agent_state get_principal of_tenant
get_principal-set_agent_state s tenant id state h =
    let (p, own, agent, set, found) =
      set_state_found-ok s tenant id state (lookup id s.principals) h in
    (p, agent, set, rw found (rw own (rw (==_refl tenant.tenant_id) refl)))
