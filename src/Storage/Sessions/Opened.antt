-- ===== src/Storage/Sessions/Opened.antt =====
-- A session that was opened is valid until it expires.
use multi.Prelude.{
  ℕ, true, false, ◌≡◌, refl, lookup-insert_self, ==_refl, string_eq, ℤ, ltb_ℤ, leb_ℤ, ok, arith,
}
use multi.Contract.Ids.{IdentityId, SessionId}
use multi.Contract.Tenant.{TenantContext}
use multi.Storage.Sessions.{Store, create_session, validate_found, validate_session}

pub validate_session-created :
    (mint : ℕ → SessionId) (s : Store) (tenant : TenantContext) (identity_id : IdentityId)
    (expires_at now : ℤ)
    → ltb_ℤ now expires_at ≡ true
    → validate_session
        (create_session mint s tenant identity_id expires_at).0
        tenant
        (create_session mint s tenant identity_id expires_at).1.id
        now
      ≡ ok (create_session mint s tenant identity_id expires_at).1
unfolding validate_session create_session validate_found
validate_session-created mint s tenant identity_id expires_at now h =
    let live : leb_ℤ expires_at now ≡ false = ground arith in
    rw (lookup-insert_self _ _ s.sessions) (rw (==_refl tenant.tenant_id) (rw live refl))
