-- ===== src/Runtime/Signing/Readmitted.antt =====
-- Who signed up is found again by the session that was opened.
use multi.Prelude.{String, some, ◌≡◌, refl, sym, ◌∙◌, ap, string_eq, ℤ, ltb_ℤ, true, ok}
use multi.Contract.Claims.{Claims}
use multi.Contract.Principal.{Principal, principal_kind_eq}
use multi.Contract.Tenant.{TenantContext}
use multi.Providers.Connector.{AuthResponse, ExternalIdentity}
use multi.Storage.Audit.{account_linked}
use multi.Storage.Identities.{new_identity, get_identity}
use multi.Storage.Principals.{get_principal, resolve_external_identity}
use multi.Storage.Sessions.{create_session, validate_session}
use multi.Storage.Sessions.Opened.{validate_session-created}
use multi.Runtime.Contexts.{context_for, resolve_session}
use multi.Runtime.Contexts.Reading.{paired, principal_of_session-found, resolve_session-found}
use multi.Runtime.Mesh.{AuthMesh, Host, tenant}
use multi.Runtime.Resolution.{ResolvedPrincipal}
use multi.Runtime.Resolution.Provisioning.{new_principal}
use multi.Runtime.Resolution.Provisioning.Provisioned.{
  provision_principal-IsProvisioned, new_principal-usable,
}
use multi.Runtime.Stores.{MeshStores, assert_principal_is_usable}
use multi.Runtime.Signing.{AuthenticatedSession, Registration, sign_up}
use multi.Runtime.Signing.Admitted.{admit-Admitted, opened, provisioned, sign_up-steps}

module _ {Log : Type 0} (host : Host Log) where
  module _ (response : AuthResponse) (registration : Registration) (now : ℤ) where
    tenant-found :
        (s n : MeshStores) (tenant_id : String)
        → n.tenants ≡ s.tenants
        → tenant n tenant_id ≡ tenant s tenant_id
    unfolding tenant
    tenant-found s n tenant_id same = rw same refl

    -- What a session that was opened for a provisioned principal is resolved to.
    resolved-again :
        (tenant_id : String) (t : TenantContext) (external : ExternalIdentity) (claims : Claims)
        (resolved : ResolvedPrincipal) (m : AuthMesh Log) (n : MeshStores)
        (given : AuthenticatedSession) (later : ℤ)
        → tenant m.stores tenant_id ≡ ok t
        → (provisioned host response registration now t external claims m).1 ≡ ok resolved
        → given.session
          ≡ (opened host account_linked t external resolved now
              (provisioned host response registration now t external claims m).0).1
        → n ≡ record ((provisioned host response registration now t external claims m).0.stores) {
          sessions =
              (opened host account_linked t external resolved now
                (provisioned host response registration now t external claims m).0).0;
        }
        → ltb_ℤ later given.session.expires_at ≡ true
        → resolve_session host.clock m.config n tenant_id given.session.id later
          ≡ paired given.session
              (context_for host.clock m.config n t resolved.principal (some given.session.id) later)
    unfolding provisioned opened new_identity create_session
    resolved-again tenant_id t external claims resolved m n given later found made session stores
          live =
        let p =
          provision_principal-IsProvisioned t external registration.kind claims now m.stores
            resolved made in
        let i = record (resolved.identity) { claims = claims } in
        let of_identity : given.session.identity_id ≡ resolved.identity.id =
          ap (λ s. s.identity_id) session in
        let identified : get_identity n.identities t given.session.identity_id ≡ ok (some i) =
          rw of_identity
            (ap (λ s. get_identity s.identities t resolved.identity.id) stores ∙ p.identified) in
        let provider : i.provider ≡ external.connector = ap (λ i. i.provider) p.named in
        let subject : i.provider_subject ≡ external.subject =
          ap (λ i. i.provider_subject) p.named in
        let bound : resolve_external_identity n.principals t i.provider i.provider_subject
            ≡ some resolved.principal.id =
          ap (λ s. resolve_external_identity s.principals t i.provider i.provider_subject) stores
          ∙ rw provider (rw subject p.bound) in
        let kept : get_principal n.principals t resolved.principal.id
            ≡ ok (some resolved.principal) =
          ap (λ s. get_principal s.principals t resolved.principal.id) stores ∙ p.kept in
        let usable : assert_principal_is_usable resolved.principal ≡ ok tt =
          ap assert_principal_is_usable p.new
          ∙ new_principal-usable t external registration.kind claims in
        let valid : validate_session n.sessions t given.session.id later ≡ ok given.session =
          rw (ap (λ s. s.sessions) stores) (
            rw session (
              validate_session-created host.mint _ t resolved.identity.id _ later
                (ap (λ s. ltb_ℤ later s.expires_at) (sym session) ∙ live))) in
        resolve_session-found host.clock m.config n tenant_id given.session.id later t given.session
          resolved.principal
          (tenant-found m.stores n tenant_id (ap (λ s. s.tenants) stores ∙ p.tenants) ∙ found) valid
          (principal_of_session-found n t given.session i resolved.principal identified bound kept
            usable)

    -- A sign-up that ends well opens a session that, until it expires, is resolved to that session and
    -- to the authority that the new principal has at that time; and when it was opened, this was
    -- the context that was handed out, of the principal that the registration asked for.
    pub resolve_session-sign_up :
        (tenant_id : String) (m : AuthMesh Log) (given : AuthenticatedSession) (later : ℤ)
        → (sign_up host tenant_id response registration now m).1 ≡ ok given
        → ltb_ℤ later given.session.expires_at ≡ true
        → (t : TenantContext) × (p : Principal) × (tenant m.stores tenant_id ≡ ok t)
          × (p.kind ≡ registration.kind)
          × (p.tenant_id ≡ t.tenant_id)
          × (context_for host.clock m.config
                (sign_up host tenant_id response registration now m).0.stores
                t
                p
                (some given.session.id)
                now
              ≡ ok given.context)
          × (resolve_session host.clock m.config
                (sign_up host tenant_id response registration now m).0.stores
                tenant_id
                given.session.id
                later
              ≡ paired given.session (
                  context_for host.clock m.config
                    (sign_up host tenant_id response registration now m).0.stores
                    t
                    p
                    (some given.session.id)
                    later))
    unfolding provisioned new_principal
    resolve_session-sign_up tenant_id m given later h live =
        let (t, external, claims, resolved, found, made, whole) =
          sign_up-steps host response registration now tenant_id m given h in
        let p =
          provision_principal-IsProvisioned t external registration.kind claims now m.stores
            resolved made in
        let a =
          admit-Admitted host account_linked t external resolved now
            (provisioned host response registration now t external claims m).0 given
            (ap (λ p. p.1) (sym whole) ∙ h) in
        let end = ap (λ p. p.0.stores) whole in
        (
          t,
          resolved.principal,
          found,
          ap (λ p. p.kind) p.new,
          ap (λ p. p.tenant_id) p.new,
          rw end a.context,
          resolved-again tenant_id t external claims resolved m _ given later found made a.session
              (end ∙ a.stores) live,
        )
