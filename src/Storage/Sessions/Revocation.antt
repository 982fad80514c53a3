-- ===== src/Storage/Sessions/Revocation.antt =====
-- When a session is accepted.
use multi.Prelude.{
  ℕ, ◌+◌, ◌≤◌, ◌<◌, ◌%◌, ◌^◌, true, false, Option, none, some, List, [], ◌∷◌, ◌≡◌, ◌≢◌, refl, ◌∙◌,
  inl, inr, length, lookup, lookup-insert, is_some, ◌==◌, ==_refl, string_eq, if◌then◌else◌, ℤ,
  leb_ℤ, ok, err, is_ok, arith, Bool-cases,
}
use multi.Contract.Ids.{SessionId, IdentityId}
use multi.Contract.Tenant.{TenantContext}
use multi.Storage.Sessions.{
  Session, Store, create_session, revoke_found, revoke_session, validate_session,
}

-- The calls that change the store.
pub data Call : Type 0 where
  create : TenantContext → IdentityId → ℤ → Call
  revoke : TenantContext → SessionId → ℤ → Call

module _ (mint : ℕ → SessionId) where
  unfoldable pub step : Store → Call → Store
  step s (create tenant identity expires_at) = (create_session mint s tenant identity expires_at).0
  step s (revoke tenant id at) = (revoke_session s tenant id at).0

  unfoldable pub run : Store → List Call → Store
  run s [] = s
  run s (c ∷ cs) = run (step s c) cs

  -- A session that was just opened is accepted by its tenant exactly until it expires.
  pub create_session-validate :
      (s : Store) (tenant : TenantContext) (identity : IdentityId) (expires_at now : ℤ)
      → let (t, session) = create_session mint s tenant identity expires_at in
        validate_session t tenant session.id now
        ≡ (if leb_ℤ expires_at now then err "expired session" else ok session)
  unfolding create_session validate_session
  create_session-validate s tenant identity expires_at now =
      rw (lookup-insert, ==_refl (mint ((s.next_id + 1) % 2 ^ 64)), ==_refl tenant.tenant_id) refl

  -- No counter after the current one gives the id again.
  abbrev IsPast : SessionId → ℕ → Type 0
  IsPast id next_id = (n : ℕ) → next_id < n → mint n ≢ id

  record Gone (id : SessionId) (s : Store) : Type 0 where
    session : Session
    found : lookup id s.sessions ≡ some session
    revoked : is_some session.revoked_at ≡ true
    past : IsPast id s.next_id

  next_id-lt : (s : Store) → s.next_id + 1 < 2 ^ 64 → (s.next_id + 1) % 2 ^ 64 ≡ s.next_id + 1
  next_id-lt s h = omega arith

  create-Gone :
      (id : SessionId) (s : Store) (tenant : TenantContext) (identity : IdentityId) (expires_at : ℤ)
      → s.next_id + 1 < 2 ^ 64
      → Gone id s
      → Gone id (create_session mint s tenant identity expires_at).0
  unfolding create_session
  create-Gone id s tenant identity expires_at room g = record {
    session = g.session;
    found =
        lookup-insert _ id _ s.sessions
        ∙ rw (next_id-lt s room) (ground (arith, g.past (s.next_id + 1), g.found));
    revoked = g.revoked;
    past = λ n h. g.past n (omega (arith, next_id-lt s room, h));
  }

  revoke_found-Gone :
      (id : SessionId) (s : Store) (tenant : TenantContext) (k : SessionId) (at : ℤ)
      (o : Option Session)
      → Gone id s
      → Gone id (revoke_found s tenant k at o).0
  unfolding revoke_found
  revoke_found-Gone id s tenant k at none g = g
  revoke_found-Gone id s tenant k at (some session) g =
      elim (Bool-cases (session.tenant_id == tenant.tenant_id)) [
        | inr other ↦ rw other g
        | inl own ↦ elim (Bool-cases (k == id)) [
          | inl same ↦ rw own (record {
            session = record session { revoked_at = some at };
            found =
                lookup-insert k id (record session { revoked_at = some at }) s.sessions
                ∙ rw same refl;
            revoked = refl;
            past = g.past;
          })
          | inr differ ↦ rw own (record {
            session = g.session;
            found =
                lookup-insert k id (record session { revoked_at = some at }) s.sessions
                ∙ rw differ g.found;
            revoked = g.revoked;
            past = g.past;
          })
        ]
      ]

  next_id-revoke_found :
      (s : Store) (tenant : TenantContext) (k : SessionId) (at : ℤ) (o : Option Session)
      → (revoke_found s tenant k at o).0.next_id ≡ s.next_id
  unfolding revoke_found
  next_id-revoke_found s tenant k at o = ground arith

  next_id-step :
      (s : Store) (c : Call) → s.next_id + 1 < 2 ^ 64 → (step s c).next_id ≤ s.next_id + 1
  unfolding step create_session revoke_session
  next_id-step s (create tenant identity expires_at) h = omega arith
  next_id-step s (revoke tenant id at) h =
      omega (arith, next_id-revoke_found s tenant id at (lookup id s.sessions))

  step-Gone :
      (id : SessionId) (s : Store) (c : Call)
      → s.next_id + 1 < 2 ^ 64
      → Gone id s
      → Gone id (step s c)
  unfolding step revoke_session
  step-Gone id s (create tenant identity expires_at) h g =
      create-Gone id s tenant identity expires_at h g
  step-Gone id s (revoke tenant k at) h g =
      revoke_found-Gone id s tenant k at (lookup k s.sessions) g

  run-Gone :
      (id : SessionId) (s : Store) (cs : List Call)
      → s.next_id + length cs < 2 ^ 64
      → Gone id s
      → Gone id (run s cs)
  unfolding run
  run-Gone id s [] h g = g
  run-Gone id s (c ∷ cs) h g =
      run-Gone id (step s c) cs (omega (arith, next_id-step s c (omega arith)))
        (step-Gone id s c (omega arith) g)

  Gone-of_revoke :
      (s : Store) (tenant : TenantContext) (id : SessionId) (at : ℤ) (o : Option Session)
      → IsPast id s.next_id
      → (revoke_found s tenant id at o).1 ≡ ok tt
      → Gone id (revoke_found s tenant id at o).0
  unfolding revoke_found
  Gone-of_revoke s tenant id at none past h = cc
  Gone-of_revoke s tenant id at (some session) past h =
      elim (Bool-cases (session.tenant_id == tenant.tenant_id)) [
        | inr other ↦ cc (rw other at h)
        | inl own ↦ rw own (record {
          session = record session { revoked_at = some at };
          found =
              lookup-insert id id (record session { revoked_at = some at }) s.sessions
              ∙ rw (==_refl id) refl;
          revoked = refl;
          past = past;
        })
      ]

  Gone-refused :
      (s : Store) (tenant : TenantContext) (id : SessionId) (now : ℤ)
      → Gone id s
      → is_ok (validate_session s tenant id now) ≡ false
  unfolding validate_session
  Gone-refused s tenant id now g = ground (arith, g.found, g.revoked)

  -- A session that was revoked is accepted never again, for any tenant and at any time, whatever
  -- calls follow, provided that the counter does not wrap around and that no later value of it is
  -- given the same id.
  pub revoke_session-permanent :
      (s : Store) (tenant reader : TenantContext) (id : SessionId) (at now : ℤ) (cs : List Call)
      → IsPast id s.next_id
      → s.next_id + length cs < 2 ^ 64
      → (revoke_session s tenant id at).1 ≡ ok tt
      → is_ok (validate_session (run (revoke_session s tenant id at).0 cs) reader id now) ≡ false
  unfolding revoke_session
  revoke_session-permanent s tenant reader id at now cs past room h =
      let o = lookup id s.sessions in
      let t = (revoke_found s tenant id at o).0 in
      Gone-refused (run t cs) reader id now (
        run-Gone id t cs (omega (arith, next_id-revoke_found s tenant id at o))
          (Gone-of_revoke s tenant id at o past h))
