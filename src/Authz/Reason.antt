-- ===== src/Authz/Reason.antt =====
-- crates/authz/src/policy.rs: why a request is denied, and the codes that it is reported by.
use multi.Prelude.{String, List, [], ◌∷◌}

pub data DenialReason : Type 0 where
  unknown_tenant unknown_principal tenant_mismatch missing_claim claim_mismatch policy_not_found
        capability_not_granted expired_session revoked_session expired_delegation revoked_delegation
        invalid_delegation delegation_missing delegation_scope_denied delegation_exceeds_authority
        run_not_found run_cancelled run_expired run_scope_denied run_exceeds_delegation
        parent_run_scope_denied agent_revoked agent_suspended unknown_capability
        unsupported_connector invalid_session missing_credential password_too_short
        password_too_long password_missing_uppercase password_missing_lowercase
        password_missing_number password_missing_special_character password_reused password_expired
        policy_denied condition_failed audit_unavailable :
      DenialReason

unfoldable pub as_str : DenialReason → String
as_str unknown_tenant = "unknown_tenant"
as_str unknown_principal = "unknown_principal"
as_str tenant_mismatch = "tenant_mismatch"
as_str missing_claim = "missing_claim"
as_str claim_mismatch = "claim_mismatch"
as_str policy_not_found = "policy_not_found"
as_str capability_not_granted = "capability_not_granted"
as_str expired_session = "expired_session"
as_str revoked_session = "revoked_session"
as_str expired_delegation = "delegation_expired"
as_str revoked_delegation = "delegation_revoked"
as_str invalid_delegation = "invalid_delegation"
as_str delegation_missing = "delegation_missing"
as_str delegation_scope_denied = "delegation_scope_denied"
as_str delegation_exceeds_authority = "delegation_exceeds_authority"
as_str run_not_found = "run_not_found"
as_str run_cancelled = "run_cancelled"
as_str run_expired = "run_expired"
as_str run_scope_denied = "run_scope_denied"
as_str run_exceeds_delegation = "run_exceeds_delegation"
as_str parent_run_scope_denied = "parent_run_scope_denied"
as_str agent_revoked = "agent_revoked"
as_str agent_suspended = "agent_suspended"
as_str unknown_capability = "unknown_capability"
as_str unsupported_connector = "unsupported_connector"
as_str invalid_session = "invalid_session"
as_str missing_credential = "missing_credential"
as_str password_too_short = "PASSWORD_TOO_SHORT"
as_str password_too_long = "PASSWORD_TOO_LONG"
as_str password_missing_uppercase = "PASSWORD_MISSING_UPPERCASE"
as_str password_missing_lowercase = "PASSWORD_MISSING_LOWERCASE"
as_str password_missing_number = "PASSWORD_MISSING_NUMBER"
as_str password_missing_special_character = "PASSWORD_MISSING_SPECIAL_CHARACTER"
as_str password_reused = "PASSWORD_REUSED"
as_str password_expired = "PASSWORD_EXPIRED"
as_str policy_denied = "policy_denied"
as_str condition_failed = "condition_failed"
as_str audit_unavailable = "audit_unavailable"

-- Every reason, in the order of the source.
abbrev pub all_reasons : List DenialReason
all_reasons =
    unknown_tenant ∷ unknown_principal ∷ tenant_mismatch ∷ missing_claim ∷ claim_mismatch
    ∷ policy_not_found ∷ capability_not_granted ∷ expired_session ∷ revoked_session
    ∷ expired_delegation ∷ revoked_delegation ∷ invalid_delegation ∷ delegation_missing
    ∷ delegation_scope_denied ∷ delegation_exceeds_authority ∷ run_not_found ∷ run_cancelled
    ∷ run_expired ∷ run_scope_denied ∷ run_exceeds_delegation ∷ parent_run_scope_denied
    ∷ agent_revoked ∷ agent_suspended ∷ unknown_capability ∷ unsupported_connector ∷ invalid_session
    ∷ missing_credential ∷ password_too_short ∷ password_too_long ∷ password_missing_uppercase
    ∷ password_missing_lowercase ∷ password_missing_number ∷ password_missing_special_character
    ∷ password_reused ∷ password_expired ∷ policy_denied ∷ condition_failed ∷ audit_unavailable ∷ []
