-- ===== src/Runtime/Signing/Admitted.antt =====
-- The steps of a sign-up that ends well.
use multi.Prelude.{
  String, ◌&&◌, not, some, ◌≡◌, refl, sym, ◌∙◌, ap, ◌==◌, string_eq, ℤ, ◌+ℤ◌, ok, ok-injective,
}
use multi.Contract.Claims.{Claims}
use multi.Contract.Principal
use multi.Contract.Principal.{Principal, principal_kind_eq}
use multi.Contract.Tenant.{TenantContext}
use multi.Authz.Evaluator.{return_if}
use multi.Authz.Reason.{unknown_principal}
use multi.Providers.Connector.{AuthResponse, ExternalIdentity}
use multi.Storage.Audit.{AuditEventKind, account_linked}
use multi.Storage.Sessions
use multi.Storage.Sessions.{Session, create_session, validate_session}
use multi.Runtime.Auditing.{audit}
use multi.Runtime.Connecting.{authenticate_external}
use multi.Runtime.Contexts.{context_for}
use multi.Runtime.Errors.{auth_error, agent_lifecycle}
use multi.Runtime.Mesh.{AuthMesh, Host, on_stores, tenant}
use multi.Runtime.Resolution.{ResolvedPrincipal}
use multi.Runtime.Resolution.Provisioning.{provision_principal}
use multi.Runtime.Running.{RuntimeContext}
use multi.Runtime.Stateful.{Stateful, gets, pure, chain-ok, ◌>>=◌}
use multi.Runtime.Signing.{
  AuthenticatedSession, Registration, admit, claims_of, open_session, session_record, sign_up,
}

module _ {Log : Type 0} (host : Host Log) where
  -- The steps of `admit`, with what follows on each.
  module _ (kind : AuditEventKind) (t : TenantContext) (external : ExternalIdentity)
      (resolved : ResolvedPrincipal) (now : ℤ) where
    unfoldable pub opened : AuthMesh Log → Sessions.Store × Session
    opened m =
        create_session host.mint m.stores.sessions t resolved.identity.id (now +ℤ m.session_ttl)

    in_context : Session → Stateful (AuthMesh Log) RuntimeContext
    in_context session =
        gets
          (λ m. context_for host.clock m.config m.stores t resolved.principal (some session.id) now)

    noted : Session → Stateful (AuthMesh Log) (Unit {0})
    noted session =
        audit host t (session_record kind resolved.principal.id session.id external.connector) now

    answer : Session → RuntimeContext → Stateful (AuthMesh Log) AuthenticatedSession
    answer session context =
        pure (record { session = session; external = external; context = context })

    -- What was handed out by a call that ended well, and the stores that it left.
    pub record Admitted (m n : AuthMesh Log) (given : AuthenticatedSession) : Type 0 where
      pub session : given.session ≡ (opened m).1
      pub stores : n.stores ≡ record (m.stores) { sessions = (opened m).0 }
      pub context :
          context_for host.clock m.config n.stores t resolved.principal (some given.session.id) now
          ≡ ok given.context

    pub admit-Admitted :
        (m : AuthMesh Log) (given : AuthenticatedSession)
        → (admit host kind t external resolved now m).1 ≡ ok given
        → Admitted m (admit host kind t external resolved now m).0 given
    unfolding admit open_session opened in_context noted answer audit
    admit-Admitted m given h =
        let (session, is_open, to_note) =
          chain-ok (open_session host t resolved.identity.id now)
            (λ session. noted session >>= λ _. in_context session >>= answer session) m given h in
        let m1 = (open_session host t resolved.identity.id now m).0 in
        let (u, _, to_context) =
          chain-ok (noted session) (λ _. in_context session >>= answer session) m1 given
            (ap (λ p. p.1) (sym to_note) ∙ h) in
        let m2 = (noted session m1).0 in
        let (context, is_context, done) =
          chain-ok (in_context session) (answer session) m2 given
            (ap (λ p. p.1) (sym (to_note ∙ to_context)) ∙ h) in
        let whole = to_note ∙ to_context ∙ done in
        let same =
          ok-injective given (record { session = session; external = external; context = context })
            _ h (ap (λ p. p.1) whole) in
        let end = ap (λ p. p.0) whole in
        let is_session = ok-injective session (opened m).1 _ is_open refl in
        record {
          session = ap (λ g. g.session) same ∙ is_session;
          stores = ap (λ n. n.stores) end;
          context =
              ap
                (λ s.
                  context_for host.clock m.config s t resolved.principal (some given.session.id)
                    now)
                (ap (λ n. n.stores) end)
              ∙ rw same is_context;
        }

  -- The steps of `sign_up` after the tenant is found, with what follows on each.
  module _ (response : AuthResponse) (registration : Registration) (now : ℤ) where
    allowed_kind : Stateful (AuthMesh Log) (Unit {0})
    allowed_kind = gets (λ m.
        return_if (registration.kind == Principal.agent && not m.config.agents)
          (auth_error agent_lifecycle unknown_principal "agents are not declared by `use auth`"))

    on_provisioned :
        TenantContext
        → ExternalIdentity
        → ResolvedPrincipal
        → Stateful (AuthMesh Log) AuthenticatedSession
    on_provisioned t external resolved = admit host account_linked t external resolved now

    unfoldable pub provisioned :
        TenantContext → ExternalIdentity → Claims → Stateful (AuthMesh Log) ResolvedPrincipal
    provisioned t external claims =
        on_stores (provision_principal t external registration.kind claims now)

    on_claims :
        TenantContext → ExternalIdentity → Claims → Stateful (AuthMesh Log) AuthenticatedSession
    unfolding provisioned on_provisioned
    on_claims t external claims = provisioned t external claims >>= on_provisioned t external

    on_external : TenantContext → ExternalIdentity → Stateful (AuthMesh Log) AuthenticatedSession
    unfolding on_claims
    on_external t external = gets (λ m. claims_of m.config registration) >>= on_claims t external

    on_allowed : TenantContext → Unit {0} → Stateful (AuthMesh Log) AuthenticatedSession
    unfolding on_external
    on_allowed t u =
        gets (λ m. authenticate_external m.config m.registry t response) >>= on_external t

    on_tenant : TenantContext → Stateful (AuthMesh Log) AuthenticatedSession
    unfolding allowed_kind on_allowed
    on_tenant t = allowed_kind >>= on_allowed t

    -- A sign-up that ends well is a provisioning and an admission.
    pub sign_up-steps :
        (tenant_id : String) (m : AuthMesh Log) (given : AuthenticatedSession)
        → (sign_up host tenant_id response registration now m).1 ≡ ok given
        → (t : TenantContext) × (external : ExternalIdentity) × (claims : Claims)
          × (resolved : ResolvedPrincipal) × (tenant m.stores tenant_id ≡ ok t)
          × ((provisioned t external claims m).1 ≡ ok resolved)
          × (sign_up host tenant_id response registration now m
              ≡ admit host account_linked t external resolved now
                  (provisioned t external claims m).0)
    unfolding sign_up provisioned on_provisioned on_claims on_external on_allowed on_tenant
        allowed_kind
    sign_up-steps tenant_id m given h =
        let (t, found, a) = chain-ok (gets (λ m. tenant m.stores tenant_id)) on_tenant m given h in
        let (u, _, b) = chain-ok allowed_kind (on_allowed t) m given (ap (λ p. p.1) (sym a) ∙ h) in
        let (external, _, c) =
          chain-ok (gets (λ m. authenticate_external m.config m.registry t response))
            (on_external t) m given (ap (λ p. p.1) (sym (a ∙ b)) ∙ h) in
        let (claims, _, d) =
          chain-ok (gets (λ m. claims_of m.config registration)) (on_claims t external) m given
            (ap (λ p. p.1) (sym (a ∙ b ∙ c)) ∙ h) in
        let (resolved, made, e) =
          chain-ok (provisioned t external claims) (on_provisioned t external) m given
            (ap (λ p. p.1) (sym (a ∙ b ∙ c ∙ d)) ∙ h) in
        (t, external, claims, resolved, found, made, a ∙ b ∙ c ∙ d ∙ e)
