-- ===== src/Storage/Identities/Collision.antt =====
-- The id of an identity does not tell its parts apart.
use text.Mathlib.TextLemmas.{append_assoc}
use multi.Prelude.{
  String, ◌<>◌, false, some, ◌≡◌, refl, ◌∙◌, ap, inl, inr, lookup, insert, lookup-insert,
  contains_key, ◌==◌, ==_refl, eq_of_==, string_eq, err, arith, Bool-cases,
}
use multi.Contract.Ids.{IdentityId, ProviderName, ProviderSubject}
use multi.Contract.Claims.{Identity}
use multi.Contract.Tenant.{TenantContext}
use multi.Storage.Principals.{external_key_eq, key_of}
use multi.Storage.Identities.{
  Store, identity_id, new_identity, link_account, get_identity, find_identity, find_by_id,
  of_tenant,
}

-- Tenant `a` with subject `q:s` of provider `p`, and tenant `a:p` with subject `s` of provider `q`.
identity_id-collide :
    (one other : TenantContext) (p q s : String)
    → other.tenant_id ≡ one.tenant_id <> ":" <> p
    → identity_id one p (q <> ":" <> s) ≡ identity_id other q s
unfolding identity_id
identity_id-collide one other p q s h = rw h (simp append_assoc)

key_differs :
    (one other : TenantContext) (p q u t : String)
    → (other.tenant_id == one.tenant_id) ≡ false
    → (key_of other q t == key_of one p u) ≡ false
key_differs one other p q u t h = elim (Bool-cases (key_of other q t == key_of one p u)) [
  | inl same ↦
      let tenants : other.tenant_id ≡ one.tenant_id =
        ap (λ k. k.tenant) (eq_of_== (key_of other q t) (key_of one p u) same) in
      ground arith
  | inr differ ↦ differ
]

abbrev pub linked : Store → TenantContext → ProviderName → ProviderSubject → Store
linked s tenant p q = (link_account s tenant p q).0

link_account-stored :
    (s : Store) (tenant : TenantContext) (p q : String)
    → contains_key (key_of tenant p q) s.by_provider ≡ false
    → linked s tenant p q ≡ record {
      identities = insert (identity_id tenant p q) (new_identity tenant p q) s.identities;
      by_provider = insert (key_of tenant p q) (identity_id tenant p q) s.by_provider;
    }
unfolding link_account new_identity
link_account-stored s tenant p q h = rw (linked, h) refl

find_identity-foreign :
    (s : Store) (tenant : TenantContext) (p q : String) (id : IdentityId) (i : Identity)
    → lookup (key_of tenant p q) s.by_provider ≡ some id
    → lookup id s.identities ≡ some i
    → (i.tenant_id == tenant.tenant_id) ≡ false
    → find_identity s tenant p q ≡ err "tenant mismatch"
unfolding find_identity find_by_id get_identity of_tenant
find_identity-foreign s tenant p q id i found stored foreign =
    rw found (rw stored (rw foreign refl))

-- When the id of a tenant is another tenant's id followed by a colon and a provider's name, linking
-- an account for it replaces the identity which the other tenant has linked with a subject that
-- continues the text in the same way: although both calls succeeded, the first tenant's lookup of
-- its own account then fails with a tenant mismatch.
pub find_identity-overwritten :
    (s : Store) (one other : TenantContext) (p q t : String)
    → other.tenant_id ≡ one.tenant_id <> ":" <> p
    → (other.tenant_id == one.tenant_id) ≡ false
    → contains_key (key_of one p (q <> ":" <> t)) s.by_provider ≡ false
    → contains_key (key_of other q t) (linked s one p (q <> ":" <> t)).by_provider ≡ false
    → find_identity (linked (linked s one p (q <> ":" <> t)) other q t) one p (q <> ":" <> t)
      ≡ err "tenant mismatch"
unfolding new_identity
find_identity-overwritten s one other p q t h differ fresh later =
    let u = q <> ":" <> t in
    let first = linked s one p u in
    let both : linked first other q t ≡ _ = link_account-stored first other q t later in
    let one_stored = link_account-stored s one p u fresh in
    find_identity-foreign (linked first other q t) one p u (identity_id one p u)
      (new_identity other q t)
      (ap (λ w. lookup (key_of one p u) w.by_provider) both
        ∙ lookup-insert (key_of other q t) (key_of one p u) (identity_id other q t)
            first.by_provider
        ∙ rw (key_differs one other p q u t differ) (
            ap (λ w. lookup (key_of one p u) w.by_provider) one_stored
            ∙ lookup-insert (key_of one p u) (key_of one p u) (identity_id one p u) s.by_provider
            ∙ rw (==_refl (key_of one p u)) refl))
      (ap (λ w. lookup (identity_id one p u) w.identities) both
        ∙ lookup-insert (identity_id other q t) (identity_id one p u) (new_identity other q t)
            first.identities
        ∙ rw (identity_id-collide one other p q t h, ==_refl (identity_id other q t)) refl)
      differ
