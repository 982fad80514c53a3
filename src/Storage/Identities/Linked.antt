-- ===== src/Storage/Identities/Linked.antt =====
-- An account that was linked, and whose claims were set, is read back.
use multi.Prelude.{
  true, some, ◌≡◌, refl, sym, ap, inl, inr, lookup, lookup-insert_self, contains_key, ◌==◌, ==_refl,
  string_eq, Result, ok, Bool-cases,
}
use multi.Contract.Ids.{ProviderName, ProviderSubject}
use multi.Contract.Claims.{Claims, Identity}
use multi.Contract.Tenant.{TenantContext}
use multi.Storage.Principals.{external_key_eq, key_of}
use multi.Storage.Identities.{
  Store, link_account, new_identity, identity_id, set_claims_found, update_claims, get_identity,
  of_tenant,
}

link_account-ok :
    (s : Store) (tenant : TenantContext) (connector : ProviderName) (subject : ProviderSubject)
    (i : Identity)
    → (link_account s tenant connector subject).1 ≡ ok i
    → (i ≡ new_identity tenant connector subject)
      × (lookup i.id (link_account s tenant connector subject).0.identities ≡ some i)
unfolding link_account new_identity
link_account-ok s tenant connector subject i h =
    elim (Bool-cases (contains_key (key_of tenant connector subject) s.by_provider)) [
      | inl known ↦ let k : Result.err "duplicate identity" ≡ Result.ok i = rw known at h in cc k
      | inr fresh ↦
          let k : ok (new_identity tenant connector subject) ≡ ok i = rw fresh at h in
          let same : new_identity tenant connector subject ≡ i = cc k in
          rw fresh (
            sym same,
            rw (sym same) (
                lookup-insert_self (identity_id tenant connector subject)
                  (new_identity tenant connector subject) s.identities),
          )
    ]

set_claims_found-ok :
    (s : Store) (tenant : TenantContext) (i : Identity) (claims : Claims)
    → i.tenant_id ≡ tenant.tenant_id
    → get_identity (set_claims_found s tenant i.id claims (some i)).0 tenant i.id
      ≡ ok (some (record i { claims = claims }))
unfolding set_claims_found get_identity of_tenant
set_claims_found-ok s tenant i claims own =
    let mine : (i.tenant_id == tenant.tenant_id) ≡ true = rw own (==_refl tenant.tenant_id) in
    rw mine
      (rw (lookup-insert_self i.id (record i { claims = claims }) s.identities) (rw mine refl))

-- The identity of an account that was linked, with the claims that were set for it.
pub get_identity-linked :
    (s : Store) (tenant : TenantContext) (connector : ProviderName) (subject : ProviderSubject)
    (claims : Claims) (i : Identity)
    → (link_account s tenant connector subject).1 ≡ ok i
    → (i ≡ new_identity tenant connector subject)
      × (get_identity
            (update_claims (link_account s tenant connector subject).0 tenant i.id claims).0
            tenant
            i.id
          ≡ ok (some (record i { claims = claims })))
unfolding update_claims new_identity
get_identity-linked s tenant connector subject claims i h =
    let (same, found) = link_account-ok s tenant connector subject i h in
    (
      same,
      rw found (
          set_claims_found-ok (link_account s tenant connector subject).0 tenant i claims
            (ap (λ i. i.tenant_id) same)),
    )
