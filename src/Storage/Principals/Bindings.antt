-- ===== src/Storage/Principals/Bindings.antt =====
-- An external identity, once bound, stays bound to the same principal.
use multi.Prelude.{
  String, Option, none, some, List, [], ◌∷◌, ◌≡◌, refl, ◌∙◌, ap, inl, inr, lookup, lookup-insert,
  ◌==◌, ==_refl, eq_of_==, string_eq, ℤ, Result, ok, err, arith, Bool-cases,
}
use multi.Contract.Ids.{PrincipalId, ProviderName, ProviderSubject}
use multi.Contract.Claims.{Claims}
use multi.Contract.Principal.{Principal, AgentState, principal_kind_eq}
use multi.Contract.Tenant.{TenantContext}
use multi.Storage.Principals.{
  ExternalKey, external_key_eq, ExternalBinding, Store, key_of, put_principal, set_agent_state,
  update_claims, get_principal, bind_found, bind_checked, bind_external_identity, bound_principal,
  resolve_external_identity,
}

-- The calls that change the store.
pub data Call : Type 0 where
  put : Principal → Call
  set_state : TenantContext → PrincipalId → AgentState → Call
  set_claims : TenantContext → PrincipalId → Claims → Call
  bind : TenantContext → ProviderName → ProviderSubject → PrincipalId → ℤ → Call

unfoldable pub step : Store → Call → Store
step s (put p) = (put_principal s p).0
step s (set_state tenant id state) = (set_agent_state s tenant id state).0
step s (set_claims tenant id claims) = (update_claims s tenant id claims).0
step s (bind tenant connector subject id at) =
    (bind_external_identity s tenant connector subject id at).0

unfoldable pub run : Store → List Call → Store
run s [] = s
run s (c ∷ cs) = run (step s c) cs

pub bindings-set_agent_state :
    (s : Store) (tenant : TenantContext) (id : PrincipalId) (state : AgentState)
    → (set_agent_state s tenant id state).0.bindings ≡ s.bindings
unfolding set_agent_state
bindings-set_agent_state s tenant id state = ground arith

bindings-update_claims :
    (s : Store) (tenant : TenantContext) (id : PrincipalId) (claims : Claims)
    → (update_claims s tenant id claims).0.bindings ≡ s.bindings
unfolding update_claims
bindings-update_claims s tenant id claims = ground arith

bind_found-keeps :
    (s : Store) (tenant : TenantContext) (connector : ProviderName) (subject : ProviderSubject)
    (id : PrincipalId) (at : ℤ) (o : Option ExternalBinding) (key : ExternalKey)
    (b : ExternalBinding)
    → lookup (key_of tenant connector subject) s.bindings ≡ o
    → lookup key s.bindings ≡ some b
    → lookup key (bind_found s tenant connector subject id at o).0.bindings ≡ some b
unfolding bind_found
bind_found-keeps s tenant connector subject id at (some e) key b h k = ground arith
bind_found-keeps s tenant connector subject id at none key b h k =
    elim (Bool-cases (key_of tenant connector subject == key)) [
      | inl same ↦ cc (ap (λ q. lookup q s.bindings) (eq_of_== _ key same), h, k)
      | inr differ ↦ lookup-insert (key_of tenant connector subject) key _ s.bindings ∙ rw differ k
    ]

bind_checked-keeps :
    (s : Store) (tenant : TenantContext) (connector : ProviderName) (subject : ProviderSubject)
    (id : PrincipalId) (at : ℤ) (r : Result String (Option Principal)) (key : ExternalKey)
    (b : ExternalBinding)
    → lookup key s.bindings ≡ some b
    → lookup key (bind_checked s tenant connector subject id at r).0.bindings ≡ some b
unfolding bind_checked
bind_checked-keeps s tenant connector subject id at (err e) key b k = k
bind_checked-keeps s tenant connector subject id at (ok none) key b k = k
bind_checked-keeps s tenant connector subject id at (ok (some p)) key b k =
    bind_found-keeps s tenant connector subject id at _ key b refl k

step-keeps :
    (s : Store) (c : Call) (key : ExternalKey) (b : ExternalBinding)
    → lookup key s.bindings ≡ some b
    → lookup key (step s c).bindings ≡ some b
unfolding step put_principal bind_external_identity
step-keeps s (put p) key b h = h
step-keeps s (set_state tenant id state) key b h =
    ap (lookup key) (bindings-set_agent_state s tenant id state) ∙ h
step-keeps s (set_claims tenant id claims) key b h =
    ap (lookup key) (bindings-update_claims s tenant id claims) ∙ h
step-keeps s (bind tenant connector subject id at) key b h =
    bind_checked-keeps s tenant connector subject id at (get_principal s tenant id) key b h

run-keeps :
    (s : Store) (cs : List Call) (key : ExternalKey) (b : ExternalBinding)
    → lookup key s.bindings ≡ some b
    → lookup key (run s cs).bindings ≡ some b
unfolding run
run-keeps s [] key b h = h
run-keeps s (c ∷ cs) key b h = run-keeps (step s c) cs key b (step-keeps s c key b h)

bound_principal-some :
    (o : Option ExternalBinding) (p : PrincipalId)
    → bound_principal o ≡ some p
    → (b : ExternalBinding) × (o ≡ some b) × (b.principal_id ≡ p)
unfolding bound_principal
bound_principal-some none p h = cc
bound_principal-some (some b) p h = (b, refl, ground arith)

-- Once an external identity of a tenant resolves to a principal, it resolves to that principal after
-- every sequence of calls: no later binding, write or change of state moves it.
pub resolve_external_identity-run :
    (s : Store) (cs : List Call) (tenant : TenantContext) (connector : ProviderName)
    (subject : ProviderSubject) (p : PrincipalId)
    → resolve_external_identity s tenant connector subject ≡ some p
    → resolve_external_identity (run s cs) tenant connector subject ≡ some p
unfolding resolve_external_identity
resolve_external_identity-run s cs tenant connector subject p h =
    let (b, found, same) =
      bound_principal-some (lookup (key_of tenant connector subject) s.bindings) p h in
    rw (run-keeps s cs (key_of tenant connector subject) b found) (ap some same)

bind_found-resolves :
    (s : Store) (tenant : TenantContext) (connector : ProviderName) (subject : ProviderSubject)
    (id : PrincipalId) (at : ℤ) (o : Option ExternalBinding) (b : ExternalBinding)
    → lookup (key_of tenant connector subject) s.bindings ≡ o
    → (bind_found s tenant connector subject id at o).1 ≡ ok b
    → (b.principal_id ≡ id)
      × (lookup
            (key_of tenant connector subject)
            (bind_found s tenant connector subject id at o).0.bindings
          ≡ some b)
unfolding bind_found
bind_found-resolves s tenant connector subject id at (some e) b h k = ground arith
bind_found-resolves s tenant connector subject id at none b h k = (
  ground arith,
  lookup-insert (key_of tenant connector subject) (key_of tenant connector subject) _ s.bindings
      ∙ rw (==_refl (key_of tenant connector subject)) (ground arith),
)

bind_checked-resolves :
    (s : Store) (tenant : TenantContext) (connector : ProviderName) (subject : ProviderSubject)
    (id : PrincipalId) (at : ℤ) (r : Result String (Option Principal)) (b : ExternalBinding)
    → (bind_checked s tenant connector subject id at r).1 ≡ ok b
    → (b.principal_id ≡ id)
      × (lookup
            (key_of tenant connector subject)
            (bind_checked s tenant connector subject id at r).0.bindings
          ≡ some b)
unfolding bind_checked
bind_checked-resolves s tenant connector subject id at (err e) b h = cc
bind_checked-resolves s tenant connector subject id at (ok none) b h = cc
bind_checked-resolves s tenant connector subject id at (ok (some p)) b h =
    bind_found-resolves s tenant connector subject id at _ b refl h

-- A binding that succeeds is to the principal asked for, and from then on, whatever calls follow, the
-- external identity resolves to that principal in its tenant.
pub bind_external_identity-resolves :
    (s : Store) (tenant : TenantContext) (connector : ProviderName) (subject : ProviderSubject)
    (id : PrincipalId) (at : ℤ) (b : ExternalBinding) (cs : List Call)
    → (bind_external_identity s tenant connector subject id at).1 ≡ ok b
    → (b.principal_id ≡ id)
      × (resolve_external_identity
            (run (bind_external_identity s tenant connector subject id at).0 cs)
            tenant
            connector
            subject
          ≡ some id)
unfolding bind_external_identity resolve_external_identity bound_principal
bind_external_identity-resolves s tenant connector subject id at b cs h =
    let (same, found) =
      bind_checked-resolves s tenant connector subject id at (get_principal s tenant id) b h in
    let start = (bind_checked s tenant connector subject id at (get_principal s tenant id)).0 in
    (
      same,
      ap bound_principal (run-keeps start cs (key_of tenant connector subject) b found)
          ∙ ap some same,
    )
