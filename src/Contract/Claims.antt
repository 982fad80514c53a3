-- ===== src/Contract/Claims.antt =====
-- crates/contract/src/claims.rs, versioning.rs and identity.rs: claim values and identities.
use mathlib.Core.Bool.{Bool-discrete}
use multi.Prelude.{ℕ, String, Bool, ℤ, ℤ-discrete, Eq, String-discrete, Dict}
use multi.Contract.Ids.{IdentityId, ProviderName, ProviderSubject, TenantId}

pub data ClaimValue : Type 0 where
  enum : String → ClaimValue
  string : String → ClaimValue
  integer : ℤ → ClaimValue
  boolean : Bool → ClaimValue

unfoldable pub ClaimValue-discrete : Discrete ClaimValue
unfolding ℤ-discrete String-discrete
ClaimValue-discrete = hlevel (String-discrete, ℤ-discrete, Bool-discrete)

instance abbrev pub claim_value_eq : Eq ClaimValue
claim_value_eq = record { dec = ClaimValue-discrete }

pub record Claims : Type 0 where
  pub values : Dict String ClaimValue

pub record ContractVersion : Type 0 where
  pub major : ℕ
  pub minor : ℕ

pub record OfflineSemantics : Type 0 where
  pub max_age_seconds : ℕ
  pub must_revalidate : Bool

pub record Identity : Type 0 where
  pub id : IdentityId
  pub provider : ProviderName
  pub provider_subject : ProviderSubject
  pub tenant_id : TenantId
  pub claims : Claims
  pub version : ContractVersion
  pub offline : OfflineSemantics
