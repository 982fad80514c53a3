-- ===== src/Runtime/Contexts/Reading.antt =====
-- A session is resolved from what the stores hold of its identity and its principal.
use multi.Prelude.{String, Option, some, ◌≡◌, refl, ℤ, Result, ok, ◌>>=◌, string_eq}
use multi.Contract.Ids.{SessionId}
use multi.Contract.Claims.{Identity}
use multi.Contract.Principal.{Principal}
use multi.Contract.Tenant.{TenantContext}
use multi.Dsl.Model.{AuthConfig}
use multi.Storage.Identities.{get_identity}
use multi.Storage.Principals.{get_principal, resolve_external_identity}
use multi.Storage.Sessions.{Session, validate_session}
use multi.Runtime.Contexts.{context_for, principal_of_session, resolve_session}
use multi.Runtime.Errors.{AuthError}
use multi.Runtime.Running.{RuntimeContext}
use multi.Runtime.Mesh.{tenant}
use multi.Runtime.Stores.{MeshStores, assert_principal_is_usable, principal}

pub principal_of_session-found :
    (s : MeshStores) (t : TenantContext) (session : Session) (i : Identity) (p : Principal)
    → get_identity s.identities t session.identity_id ≡ ok (some i)
    → resolve_external_identity s.principals t i.provider i.provider_subject ≡ some p.id
    → get_principal s.principals t p.id ≡ ok (some p)
    → assert_principal_is_usable p ≡ ok tt
    → principal_of_session s t session ≡ ok p
unfolding principal_of_session principal
principal_of_session-found s t session i p identified bound kept usable =
    rw identified (rw bound (rw kept (rw usable refl)))

-- The session beside the context that is read for it.
abbrev pub paired :
    Session → Result AuthError RuntimeContext → Result AuthError (Session × RuntimeContext)
paired session r = r >>= λ context. ok (session, context)

pub resolve_session-found :
    (clock : Option ℤ) (config : AuthConfig) (s : MeshStores) (tenant_id : String)
    (session_id : SessionId) (now : ℤ) (t : TenantContext) (session : Session) (p : Principal)
    → tenant s tenant_id ≡ ok t
    → validate_session s.sessions t session_id now ≡ ok session
    → principal_of_session s t session ≡ ok p
    → resolve_session clock config s tenant_id session_id now
      ≡ paired session (context_for clock config s t p (some session.id) now)
unfolding resolve_session
resolve_session-found clock config s tenant_id session_id now t session p h k l =
    rw h (rw k (rw l refl))
