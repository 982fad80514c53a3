-- ===== src/Storage/Identities.antt =====
-- crates/storage/src/memory.rs, `MemoryIdentityStore`.
pub mod Collision
pub mod Linked
use multi.Prelude.{
  ℕ, String, ◌<>◌, Bool, true, not, Option, none, some, List, [], ◌∷◌, Dict, lookup, insert,
  contains_key, ◌==◌, string_eq, if◌then◌else◌, Result, ok, err,
}
use multi.Contract.Ids.{IdentityId, ProviderName, ProviderSubject}
use multi.Contract.Claims.{Claims, Identity}
use multi.Contract.Tenant.{TenantContext}
use multi.Storage.Principals.{ExternalKey, external_key_eq, key_of}

pub record Store : Type 0 where
  pub identities : Dict IdentityId Identity
  pub by_provider : Dict ExternalKey IdentityId

-- `format!("{}:{}:{}", tenant, provider, provider_subject)`
unfoldable pub identity_id : TenantContext → ProviderName → ProviderSubject → IdentityId
identity_id tenant provider subject = tenant.tenant_id <> ":" <> provider <> ":" <> subject

unfoldable pub new_identity : TenantContext → ProviderName → ProviderSubject → Identity
unfolding identity_id
new_identity tenant provider subject = record {
  id = identity_id tenant provider subject;
  provider = provider;
  provider_subject = subject;
  tenant_id = tenant.tenant_id;
  claims = record { values = [] };
  version = record { major = 1; minor = 0 };
  offline = record { max_age_seconds = 300; must_revalidate = true };
}

unfoldable pub link_account :
    Store → TenantContext → ProviderName → ProviderSubject → Store × Result String Identity
unfolding new_identity
link_account s tenant provider subject =
    let key = key_of tenant provider subject in
    let identity = new_identity tenant provider subject in
    if contains_key key s.by_provider then (s, err "duplicate identity") else (
      record {
        identities = insert identity.id identity s.identities;
        by_provider = insert key identity.id s.by_provider;
      },
      ok identity,
    )

of_tenant : TenantContext → Option Identity → Result String (Option Identity)
of_tenant tenant none = ok none
of_tenant tenant (some i) =
    if i.tenant_id == tenant.tenant_id then ok (some i) else err "tenant mismatch"

unfoldable pub get_identity : Store → TenantContext → IdentityId → Result String (Option Identity)
unfolding of_tenant
get_identity s tenant id = of_tenant tenant (lookup id s.identities)

find_by_id : Store → TenantContext → Option IdentityId → Result String (Option Identity)
unfolding get_identity
find_by_id s tenant none = ok none
find_by_id s tenant (some id) = get_identity s tenant id

unfoldable pub find_identity :
    Store → TenantContext → ProviderName → ProviderSubject → Result String (Option Identity)
unfolding find_by_id
find_identity s tenant provider subject =
    find_by_id s tenant (lookup (key_of tenant provider subject) s.by_provider)

set_claims_found :
    Store → TenantContext → IdentityId → Claims → Option Identity → Store × Result String (Unit {0})
set_claims_found s tenant id claims none = (s, err "unknown identity")
set_claims_found s tenant id claims (some i) =
    if not (i.tenant_id == tenant.tenant_id)
    then (s, err "tenant mismatch")
    else (record s { identities = insert id (record i { claims = claims }) s.identities }, ok tt)

unfoldable pub update_claims :
    Store → TenantContext → IdentityId → Claims → Store × Result String (Unit {0})
unfolding set_claims_found
update_claims s tenant id claims = set_claims_found s tenant id claims (lookup id s.identities)
