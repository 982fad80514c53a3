-- ===== src/Storage/Principals.antt =====
-- crates/storage/src/memory.rs, `MemoryPrincipalStore`: principals, and the external identities
-- that are bound to them.
pub mod Bindings
pub mod Reading
use multi.Prelude.{
  String, Bool, true, false, ◌&&◌, Option, none, some, List, [], ◌∷◌, map, filter, Dict, lookup,
  insert, Eq, ◌==◌, string_eq, String-discrete, if◌then◌else◌, ℤ, Result, ok, err, is_some, not,
}
use multi.Contract.Ids.{TenantId, ProviderName, ProviderSubject, PrincipalId}
use multi.Contract.Claims.{Claims}
use multi.Contract.Principal
use multi.Contract.Principal.{Principal, AgentState, principal_kind_eq}
use multi.Contract.Tenant.{TenantContext}
use multi.Storage.Sorting.{str_le, pair_le, sort_by}

-- `(TenantId, ProviderName, ProviderSubject)`
pub record ExternalKey : Type 0 where
  pub tenant : TenantId
  pub connector : ProviderName
  pub subject : ProviderSubject

unfoldable pub ExternalKey-discrete : Discrete ExternalKey
ExternalKey-discrete = hlevel String-discrete

instance abbrev pub external_key_eq : Eq ExternalKey
external_key_eq = record { dec = ExternalKey-discrete }

pub record ExternalBinding : Type 0 where
  pub tenant_id : TenantId
  pub connector : ProviderName
  pub external_subject : ProviderSubject
  pub principal_id : PrincipalId
  pub linked_at : ℤ

pub record Store : Type 0 where
  pub principals : Dict PrincipalId Principal
  pub bindings : Dict ExternalKey ExternalBinding

unfoldable pub put_principal : Store → Principal → Store × Result String (Unit {0})
put_principal s p = (record s { principals = insert p.id p s.principals }, ok tt)

of_tenant : TenantContext → Option Principal → Result String (Option Principal)
of_tenant tenant none = ok none
of_tenant tenant (some p) =
    if p.tenant_id == tenant.tenant_id then ok (some p) else err "tenant mismatch"

unfoldable pub get_principal :
    Store → TenantContext → PrincipalId → Result String (Option Principal)
unfolding of_tenant
get_principal s tenant id = of_tenant tenant (lookup id s.principals)

unfoldable pub list_principals : Store → TenantContext → Result String (List Principal)
list_principals s tenant = ok (
    sort_by (λ p q. str_le p.id q.id)
      (filter (λ p. p.tenant_id == tenant.tenant_id) (map (λ (id, p). p) s.principals)))

set_state_found :
    Store
    → TenantContext
    → PrincipalId
    → AgentState
    → Option Principal
    → Store × Result String (Unit {0})
set_state_found s tenant id state none = (s, err "unknown principal")
set_state_found s tenant id state (some p) =
    if not (p.tenant_id == tenant.tenant_id)
    then (s, err "tenant mismatch")
    else if not (p.kind == Principal.agent)
    then (s, err "principal is not an agent")
    else (
      record s { principals = insert id (record p { agent_state = some state }) s.principals },
      ok tt,
    )

unfoldable pub set_agent_state :
    Store → TenantContext → PrincipalId → AgentState → Store × Result String (Unit {0})
unfolding set_state_found
set_agent_state s tenant id state = set_state_found s tenant id state (lookup id s.principals)

set_claims_found :
    Store
    → TenantContext
    → PrincipalId
    → Claims
    → Option Principal
    → Store × Result String (Unit {0})
set_claims_found s tenant id claims none = (s, err "unknown principal")
set_claims_found s tenant id claims (some p) =
    if not (p.tenant_id == tenant.tenant_id)
    then (s, err "tenant mismatch")
    else (record s { principals = insert id (record p { claims = claims }) s.principals }, ok tt)

unfoldable pub update_claims :
    Store → TenantContext → PrincipalId → Claims → Store × Result String (Unit {0})
unfolding set_claims_found
update_claims s tenant id claims = set_claims_found s tenant id claims (lookup id s.principals)

abbrev pub key_of : TenantContext → ProviderName → ProviderSubject → ExternalKey
key_of tenant connector subject = record {
  tenant = tenant.tenant_id;
  connector = connector;
  subject = subject;
}

bind_found :
    Store
    → TenantContext
    → ProviderName
    → ProviderSubject
    → PrincipalId
    → ℤ
    → Option ExternalBinding
    → Store × Result String ExternalBinding
bind_found s tenant connector subject id linked_at (some existing) =
    if not (existing.principal_id == id)
    then (s, err "external identity is already bound to another principal")
    else (s, ok existing)
bind_found s tenant connector subject id linked_at none =
    let binding : ExternalBinding = record {
      tenant_id = tenant.tenant_id;
      connector = connector;
      external_subject = subject;
      principal_id = id;
      linked_at = linked_at;
    } in
    (
      record s { bindings = insert (key_of tenant connector subject) binding s.bindings },
      ok binding,
    )

bind_checked :
    Store
    → TenantContext
    → ProviderName
    → ProviderSubject
    → PrincipalId
    → ℤ
    → Result String (Option Principal)
    → Store × Result String ExternalBinding
unfolding bind_found
bind_checked s tenant connector subject id linked_at (err e) = (s, err e)
bind_checked s tenant connector subject id linked_at (ok none) = (s, err "unknown principal")
bind_checked s tenant connector subject id linked_at (ok (some p)) =
    bind_found s tenant connector subject id linked_at
      (lookup (key_of tenant connector subject) s.bindings)

unfoldable pub bind_external_identity :
    Store
    → TenantContext
    → ProviderName
    → ProviderSubject
    → PrincipalId
    → ℤ
    → Store × Result String ExternalBinding
unfolding bind_checked get_principal
bind_external_identity s tenant connector subject id linked_at =
    bind_checked s tenant connector subject id linked_at (get_principal s tenant id)

bound_principal : Option ExternalBinding → Option PrincipalId
bound_principal none = none
bound_principal (some b) = some b.principal_id

unfoldable pub resolve_external_identity :
    Store → TenantContext → ProviderName → ProviderSubject → Option PrincipalId
unfolding bound_principal
resolve_external_identity s tenant connector subject =
    bound_principal (lookup (key_of tenant connector subject) s.bindings)

unfoldable pub bindings_for :
    Store → TenantContext → PrincipalId → Result String (List ExternalBinding)
bindings_for s tenant id = ok (
    sort_by (λ a b. pair_le (a.connector, a.external_subject) (b.connector, b.external_subject))
      (filter (λ b. b.tenant_id == tenant.tenant_id && b.principal_id == id)
        (map (λ (key, b). b) s.bindings)))
