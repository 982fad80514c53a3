-- ===== src/Contract/Recovery.antt =====
-- crates/contract/src/capability.rs: single-use recovery and verification capabilities.
use multi.Prelude.{String, Bool, not, ◌&&◌, Option, Dict, ℤ, ltb_ℤ, is_some}
use multi.Contract.Ids.{TenantId, IdentityId}

pub data CapabilityKind : Type 0 where
  password_reset email_verification : CapabilityKind

unfoldable pub as_str : CapabilityKind → String
as_str password_reset = "password_reset"
as_str email_verification = "email_verification"

pub record RecoveryCapability : Type 0 where
  pub id : String
  pub tenant_id : TenantId
  pub identity_id : IdentityId
  pub kind : CapabilityKind
  pub created_at : ℤ
  pub expires_at : ℤ
  pub consumed_at : Option ℤ
  pub metadata : Dict String String

unfoldable pub is_consumed : RecoveryCapability → Bool
is_consumed c = is_some c.consumed_at

unfoldable pub is_expired : RecoveryCapability → ℤ → Bool
is_expired c now = ltb_ℤ c.expires_at now

unfoldable pub is_valid : RecoveryCapability → ℤ → Bool
unfolding is_consumed is_expired
is_valid c now = not (is_consumed c) && not (is_expired c now)
