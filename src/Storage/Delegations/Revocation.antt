-- ===== src/Storage/Delegations/Revocation.antt =====
-- A revoked delegation stays revoked.
use multi.Prelude.{
  true, false, Option, none, some, List, [], ◌∷◌, ◌≡◌, refl, ◌∙◌, inl, inr, lookup, lookup-insert,
  is_some, ◌==◌, string_eq, ℤ, ok, arith, Bool-cases, ==_refl,
}
use multi.Contract.Ids.{DelegationId}
use multi.Contract.Delegation.{Delegation, is_valid_at}
use multi.Contract.Tenant.{TenantContext}
use multi.Storage.Delegations.{
  Store, create_delegation, get_delegation, revoke_found, revoke_delegation,
}
use multi.Storage.Delegations.Invariant.{Call, create, revoke, step, run}

-- Under the id there is a delegation, and it carries a revocation.
abbrev IsRevoked : DelegationId → Store → Type 0
IsRevoked id s = (d : Delegation) × (lookup id s ≡ some d) × (is_some d.revoked_at ≡ true)

create-IsRevoked :
    (id : DelegationId) (s : Store) (d : Delegation)
    → IsRevoked id s
    → lookup id (create_delegation s d).0 ≡ lookup id s
unfolding create_delegation
create-IsRevoked id s d (e, found, gone) = ground (arith, lookup-insert d.id id d s)

revoke_found-IsRevoked :
    (id : DelegationId) (s : Store) (tenant : TenantContext) (k : DelegationId) (at : ℤ)
    (o : Option Delegation)
    → IsRevoked id s
    → IsRevoked id (revoke_found s tenant k at o).0
unfolding revoke_found
revoke_found-IsRevoked id s tenant k at none h = h
revoke_found-IsRevoked id s tenant k at (some d) h =
    elim (Bool-cases (d.tenant_id == tenant.tenant_id)) [
      | inr other ↦ rw other h
      | inl own ↦ elim (Bool-cases (k == id)) [
        | inl same ↦ rw own (
          record d { revoked_at = some at },
          lookup-insert k id (record d { revoked_at = some at }) s ∙ rw same refl,
          refl,
        )
        | inr differ ↦
            let (e, found, gone) = h in
            rw own
              (e, lookup-insert k id (record d { revoked_at = some at }) s ∙ rw differ found, gone)
      ]
    ]

step-IsRevoked :
    (id : DelegationId) (s : Store) (c : Call) → IsRevoked id s → IsRevoked id (step s c)
unfolding step revoke_delegation
step-IsRevoked id s (create d) h =
    let (e, found, gone) = h in (e, create-IsRevoked id s d h ∙ found, gone)
step-IsRevoked id s (revoke tenant k at) h = revoke_found-IsRevoked id s tenant k at (lookup k s) h

run-IsRevoked :
    (id : DelegationId) (s : Store) (cs : List Call) → IsRevoked id s → IsRevoked id (run s cs)
unfolding run
run-IsRevoked id s [] h = h
run-IsRevoked id s (c ∷ cs) h = run-IsRevoked id (step s c) cs (step-IsRevoked id s c h)

IsRevoked-by_found :
    (s : Store) (tenant : TenantContext) (id : DelegationId) (at : ℤ) (o : Option Delegation)
    → (revoke_found s tenant id at o).1 ≡ ok tt
    → IsRevoked id (revoke_found s tenant id at o).0
unfolding revoke_found
IsRevoked-by_found s tenant id at none h = cc
IsRevoked-by_found s tenant id at (some d) h = elim (Bool-cases (d.tenant_id == tenant.tenant_id)) [
  | inl own ↦ rw own (
    record d { revoked_at = some at },
    lookup-insert id id (record d { revoked_at = some at }) s ∙ rw (==_refl id) refl,
    refl,
  )
  | inr other ↦ cc (rw other at h)
]

revoked-not_valid :
    (d : Delegation) (now : ℤ) → is_some d.revoked_at ≡ true → is_valid_at d now ≡ false
unfolding is_valid_at
revoked-not_valid d now h = ground arith

get_delegation-lookup :
    (s : Store) (tenant : TenantContext) (id : DelegationId) (d : Delegation)
    → get_delegation s tenant id ≡ ok (some d)
    → lookup id s ≡ some d
unfolding get_delegation
get_delegation-lookup s tenant id d h = ground arith

-- After a successful revocation, and whatever calls follow it, a read of the delegation returns one
-- that is not valid at any time, before or after the revocation.
pub revoke_delegation-permanent :
    (s : Store) (tenant reader : TenantContext) (id : DelegationId) (at : ℤ) (cs : List Call)
    (d : Delegation) (now : ℤ)
    → (revoke_delegation s tenant id at).1 ≡ ok tt
    → get_delegation (run (revoke_delegation s tenant id at).0 cs) reader id ≡ ok (some d)
    → is_valid_at d now ≡ false
unfolding revoke_delegation
revoke_delegation-permanent s tenant reader id at cs d now revoked read =
    let (e, found, gone) =
      run-IsRevoked id (revoke_found s tenant id at (lookup id s)).0 cs
        (IsRevoked-by_found s tenant id at (lookup id s) revoked) in
    let same = get_delegation-lookup _ reader id d read in revoked-not_valid d now (ground arith)
