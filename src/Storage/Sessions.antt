-- ===== src/Storage/Sessions.antt =====
-- crates/storage/src/memory.rs, `MemorySessionStore`. The random seed and the wall clock that the
-- id of a session is hashed from are outside the program: `mint` is the id for a counter.
pub mod Revocation
pub mod Opened
use multi.Prelude.{
  ℕ, ◌+◌, ◌%◌, ◌^◌, String, Bool, true, false, ◌&&◌, not, Option, none, some, List, [], ◌∷◌, map,
  filter, Dict, lookup, insert, ◌==◌, string_eq, if◌then◌else◌, ℤ, pos, leb_ℤ, Result, ok, err,
  is_some,
}
use multi.Contract.Ids.{IdentityId, SessionId, TenantId}
use multi.Contract.Tenant.{TenantContext}

pub record Session : Type 0 where
  pub id : SessionId
  pub identity_id : IdentityId
  pub tenant_id : TenantId
  pub created_at : ℤ
  pub expires_at : ℤ
  pub revoked_at : Option ℤ

pub record Store : Type 0 where
  pub sessions : Dict SessionId Session
  pub next_id : ℕ

-- `*next_id += 1` on a `u64` wraps in a release build.
unfoldable pub create_session :
    (ℕ → SessionId) → Store → TenantContext → IdentityId → ℤ → Store × Session
create_session mint s tenant identity_id expires_at =
    let next_id = (s.next_id + 1) % 2 ^ 64 in
    let session : Session = record {
      id = mint next_id;
      identity_id = identity_id;
      tenant_id = tenant.tenant_id;
      created_at = pos 0;
      expires_at = expires_at;
      revoked_at = none;
    } in
    (record { sessions = insert session.id session s.sessions; next_id = next_id }, session)

revoke_found :
    Store → TenantContext → SessionId → ℤ → Option Session → Store × Result String (Unit {0})
revoke_found s tenant id revoked_at none = (s, err "unknown session")
revoke_found s tenant id revoked_at (some session) =
    if not (session.tenant_id == tenant.tenant_id) then (s, err "tenant mismatch") else (
      record s {
        sessions = insert id (record session { revoked_at = some revoked_at }) s.sessions;
      },
      ok tt,
    )

unfoldable pub revoke_session :
    Store → TenantContext → SessionId → ℤ → Store × Result String (Unit {0})
unfolding revoke_found
revoke_session s tenant id revoked_at = revoke_found s tenant id revoked_at (lookup id s.sessions)

validate_found : TenantContext → ℤ → Option Session → Result String Session
validate_found tenant now none = err "unknown session"
validate_found tenant now (some session) =
    if not (session.tenant_id == tenant.tenant_id)
    then err "tenant mismatch"
    else if is_some session.revoked_at
    then err "revoked session"
    else if leb_ℤ session.expires_at now
    then err "expired session"
    else ok session

unfoldable pub validate_session : Store → TenantContext → SessionId → ℤ → Result String Session
unfolding validate_found
validate_session s tenant id now = validate_found tenant now (lookup id s.sessions)

-- The order of a `HashMap`'s values is arbitrary.
unfoldable pub list_sessions : Store → TenantContext → IdentityId → List Session
list_sessions s tenant identity_id =
    filter (λ session. session.tenant_id == tenant.tenant_id && session.identity_id == identity_id)
      (map (λ (id, session). session) s.sessions)
