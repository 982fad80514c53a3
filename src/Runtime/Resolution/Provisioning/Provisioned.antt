-- ===== src/Runtime/Resolution/Provisioning/Provisioned.antt =====
-- What the stores hold of a principal that was provisioned.
use multi.Prelude.{
  some, ◌≡◌, refl, sym, ◌∙◌, ap, string_eq, is_some, ℤ, Result, ok, err, arith, [], ok-injective,
}
use multi.Contract.Claims.{Claims, Identity}
use multi.Contract.Principal.{
  PrincipalKind, PrincipalKind-discrete, principal_kind_eq, human, agent, service,
}
use multi.Contract.Tenant.{TenantContext}
use multi.Authz.Evaluator.{return_if}
use multi.Providers.Connector.{ExternalIdentity}
use multi.Storage.Identities.{link_account, update_claims, new_identity, get_identity}
use multi.Storage.Identities.Linked.{get_identity-linked}
use multi.Storage.Principals.{
  ExternalBinding, put_principal, bind_external_identity, resolve_external_identity, get_principal,
}
use multi.Storage.Principals.Bindings.{bind_external_identity-resolves, run}
use multi.Storage.Principals.Reading.{
  bind_external_identity-principals, get_principal-put, get_principal-principals,
}
use multi.Runtime.Errors.{AuthError, map_err}
use multi.Runtime.Stateful.{Stateful, gets, pure, ◌>>=◌, chain-ok}
use multi.Runtime.Stores.{MeshStores, assert_principal_is_usable}
use multi.Runtime.Resolution.{ResolvedPrincipal, identity_error, resolution_error}
use multi.Runtime.Resolution.Provisioning.{
  on_identities, on_principals, link_identity_record, new_principal, state_of, provision_principal,
}

pub map_err-ok :
    {A E F : Type 0} (f : E → F) (r : Result E A) (a : A) → map_err f r ≡ ok a → r ≡ ok a
map_err-ok f (ok b) a h = ground arith
map_err-ok f (err e) a h = cc

pub new_principal-usable :
    (tenant : TenantContext) (external : ExternalIdentity) (kind : PrincipalKind) (claims : Claims)
    → assert_principal_is_usable (new_principal tenant external kind claims) ≡ ok tt
unfolding assert_principal_is_usable new_principal state_of PrincipalKind-discrete
new_principal-usable tenant external human claims = refl
new_principal-usable tenant external agent claims = refl
new_principal-usable tenant external service claims = refl

module _ (tenant : TenantContext) (external : ExternalIdentity) (kind : PrincipalKind)
    (claims : Claims) where
  -- What the stores `n` hold after the principal was provisioned in the stores `s`.
  pub record IsProvisioned (s n : MeshStores) (resolved : ResolvedPrincipal) : Type 0 where
    pub tenants : n.tenants ≡ s.tenants
    pub sessions : n.sessions ≡ s.sessions
    pub named : resolved.identity ≡ new_identity tenant external.connector external.subject
    pub new : resolved.principal ≡ new_principal tenant external kind claims
    pub identified :
        get_identity n.identities tenant resolved.identity.id
        ≡ ok (some (record (resolved.identity) { claims = claims }))
    pub bound :
        resolve_external_identity n.principals tenant external.connector external.subject
        ≡ some resolved.principal.id
    pub kept :
        get_principal n.principals tenant resolved.principal.id ≡ ok (some resolved.principal)

  -- The stores after each step.
  linked : MeshStores → MeshStores × Result AuthError Identity
  linked = link_identity_record tenant external.connector external.subject claims

  written : MeshStores → MeshStores × Result AuthError (Unit {0})
  written = on_principals (λ s. put_principal s (new_principal tenant external kind claims))

  bound_in : ℤ → MeshStores → MeshStores × Result AuthError ExternalBinding
  bound_in now = on_principals (λ s.
      bind_external_identity s tenant external.connector external.subject
        (new_principal tenant external kind claims).id now)

  -- What follows on each step.
  after_bound : Identity → ExternalBinding → Stateful MeshStores ResolvedPrincipal
  after_bound i b =
      pure (record {
        principal = new_principal tenant external kind claims;
        identity = i;
        binding = b;
      })

  after_written : ℤ → Identity → Unit {0} → Stateful MeshStores ResolvedPrincipal
  unfolding bound_in after_bound
  after_written now i _ = bound_in now >>= after_bound i

  after_linked : ℤ → Identity → Stateful MeshStores ResolvedPrincipal
  unfolding written after_written
  after_linked now i = written >>= after_written now i

  unlinked : Stateful MeshStores (Unit {0})
  unlinked = gets (λ s.
      return_if
        (is_some
          (resolve_external_identity s.principals tenant external.connector external.subject))
        (resolution_error "external identity is already linked to a principal"))

  -- A provisioning that succeeds goes through all of its steps.
  provision_principal-steps :
      (now : ℤ) (s : MeshStores) (resolved : ResolvedPrincipal)
      → (provision_principal tenant external kind claims now s).1 ≡ ok resolved
      → (i : Identity) × (b : ExternalBinding) × ((linked s).1 ≡ ok i)
        × ((bound_in now (written (linked s).0).0).1 ≡ ok b)
        × (provision_principal tenant external kind claims now s
            ≡ after_bound i b (bound_in now (written (linked s).0).0).0)
  unfolding provision_principal linked written bound_in after_linked after_written unlinked
  provision_principal-steps now s resolved h =
      let (t, _, to_link) = chain-ok unlinked (λ _. linked >>= after_linked now) s resolved h in
      let (i, is_linked, to_write) =
        chain-ok linked (after_linked now) s resolved (ap (λ p. p.1) (sym to_link) ∙ h) in
      let (u, _, to_bind) =
        chain-ok written (after_written now i) (linked s).0 resolved
          (ap (λ p. p.1) (sym (to_link ∙ to_write)) ∙ h) in
      let (b, is_bound, done) =
        chain-ok (bound_in now) (after_bound i) (written (linked s).0).0 resolved
          (ap (λ p. p.1) (sym (to_link ∙ to_write ∙ to_bind)) ∙ h) in
      (i, b, is_linked, is_bound, to_link ∙ to_write ∙ to_bind ∙ done)

  -- The record of the identity, and the stores that hold it with its claims.
  linked-holds :
      (s : MeshStores) (i : Identity)
      → (linked s).1 ≡ ok i
      → (i ≡ new_identity tenant external.connector external.subject)
        × (get_identity (linked s).0.identities tenant i.id
            ≡ ok (some (record i { claims = claims })))
        × ((linked s).0.tenants ≡ s.tenants)
        × ((linked s).0.sessions ≡ s.sessions)
        × ((linked s).0.principals ≡ s.principals)
  unfolding linked link_identity_record
  linked-holds s i h =
      let first : Stateful MeshStores Identity =
        on_identities (λ s. link_account s tenant external.connector external.subject) in
      let second : Identity → Stateful MeshStores (Unit {0}) =
        λ i. on_identities (λ s. update_claims s tenant i.id claims) in
      let (j, made, to_claims) = chain-ok first (λ i. second i >>= λ _. pure i) s i h in
      let (t, set, done) =
        chain-ok (second j) (λ _. pure j) (first s).0 i (ap (λ p. p.1) (sym to_claims) ∙ h) in
      let whole = to_claims ∙ done in
      let same = ok-injective i j _ h (ap (λ p. p.1) whole) in
      let end = ap (λ p. p.0) whole in
      let (named, identified) =
        get_identity-linked s.identities tenant external.connector external.subject claims j
          (map_err-ok identity_error _ j made) in
      (
        same ∙ named,
        ap (λ n. get_identity n.identities tenant i.id) end ∙ rw same identified,
        ap (λ n. n.tenants) end,
        ap (λ n. n.sessions) end,
        ap (λ n. n.principals) end,
      )

  -- A principal that was provisioned is what a reader finds by its identity.
  pub provision_principal-IsProvisioned :
      (now : ℤ) (s : MeshStores) (resolved : ResolvedPrincipal)
      → (provision_principal tenant external kind claims now s).1 ≡ ok resolved
      → IsProvisioned s (provision_principal tenant external kind claims now s).0 resolved
  unfolding after_bound bound_in written new_principal run put_principal
  provision_principal-IsProvisioned now s resolved h =
      let (i, b, is_linked, is_bound, whole) = provision_principal-steps now s resolved h in
      let (named, identified, tenants, sessions, principals) = linked-holds s i is_linked in
      let p = new_principal tenant external kind claims in
      let r : ResolvedPrincipal = record { principal = p; identity = i; binding = b } in
      let same = ok-injective resolved r _ h (ap (λ p. p.1) whole) in
      let m = (written (linked s).0).0 in
      let end = ap (λ p. p.0) whole in
      let (of_p, bound) =
        bind_external_identity-resolves m.principals tenant external.connector external.subject p.id
          now b [] (map_err-ok resolution_error _ b is_bound) in
      rw same (
        rw end (record {
          tenants = tenants;
          sessions = sessions;
          named = named;
          new = refl;
          identified = identified;
          bound = bound;
          kept =
              get_principal-principals _ m.principals tenant p.id (
                bind_external_identity-principals m.principals tenant external.connector
                  external.subject p.id now)
              ∙ get_principal-put (linked s).0.principals tenant p refl;
        }))
