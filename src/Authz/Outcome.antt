-- ===== src/Authz/Outcome.antt =====
-- crates/authz/src/policy.rs: the coarser reason that is kept in the evidence of a decision.
use multi.Prelude.{String}
use multi.Authz.Reason.{DenialReason}
use multi.Authz.Decision.{AuthorizationDecision, allow, deny}

pub data DecisionReason : Type 0 where
  allowed_by_policy capability_missing policy_denied tenant_mismatch condition_failed
        resource_resolution_failed principal_missing session_invalid route_unprotected
        authority_unavailable delegation_missing delegation_expired delegation_revoked
        delegation_scope_denied delegation_exceeds_authority run_not_found run_cancelled run_expired
        run_scope_denied run_exceeds_delegation parent_run_scope_denied agent_revoked
        agent_suspended fail_closed :
      DecisionReason

unfoldable pub as_str : DecisionReason → String
as_str allowed_by_policy = "allowed_by_policy"
as_str capability_missing = "capability_missing"
as_str policy_denied = "policy_denied"
as_str tenant_mismatch = "tenant_mismatch"
as_str condition_failed = "condition_failed"
as_str resource_resolution_failed = "resource_resolution_failed"
as_str principal_missing = "principal_missing"
as_str session_invalid = "session_invalid"
as_str route_unprotected = "route_unprotected"
as_str authority_unavailable = "authority_unavailable"
as_str delegation_missing = "delegation_missing"
as_str delegation_expired = "delegation_expired"
as_str delegation_revoked = "delegation_revoked"
as_str delegation_scope_denied = "delegation_scope_denied"
as_str delegation_exceeds_authority = "delegation_exceeds_authority"
as_str run_not_found = "run_not_found"
as_str run_cancelled = "run_cancelled"
as_str run_expired = "run_expired"
as_str run_scope_denied = "run_scope_denied"
as_str run_exceeds_delegation = "run_exceeds_delegation"
as_str parent_run_scope_denied = "parent_run_scope_denied"
as_str agent_revoked = "agent_revoked"
as_str agent_suspended = "agent_suspended"
as_str fail_closed = "fail_closed"

reason_of : DenialReason → DecisionReason
reason_of DenialReason.unknown_principal = DecisionReason.principal_missing
reason_of DenialReason.tenant_mismatch = DecisionReason.tenant_mismatch
reason_of DenialReason.unknown_tenant = DecisionReason.tenant_mismatch
reason_of DenialReason.policy_not_found = DecisionReason.authority_unavailable
reason_of DenialReason.unknown_capability = DecisionReason.authority_unavailable
reason_of DenialReason.capability_not_granted = DecisionReason.capability_missing
reason_of DenialReason.missing_claim = DecisionReason.capability_missing
reason_of DenialReason.claim_mismatch = DecisionReason.capability_missing
reason_of DenialReason.expired_session = DecisionReason.session_invalid
reason_of DenialReason.revoked_session = DecisionReason.session_invalid
reason_of DenialReason.invalid_session = DecisionReason.session_invalid
reason_of DenialReason.missing_credential = DecisionReason.session_invalid
reason_of DenialReason.policy_denied = DecisionReason.policy_denied
reason_of DenialReason.password_too_short = DecisionReason.policy_denied
reason_of DenialReason.password_too_long = DecisionReason.policy_denied
reason_of DenialReason.password_missing_uppercase = DecisionReason.policy_denied
reason_of DenialReason.password_missing_lowercase = DecisionReason.policy_denied
reason_of DenialReason.password_missing_number = DecisionReason.policy_denied
reason_of DenialReason.password_missing_special_character = DecisionReason.policy_denied
reason_of DenialReason.password_reused = DecisionReason.policy_denied
reason_of DenialReason.password_expired = DecisionReason.policy_denied
reason_of DenialReason.condition_failed = DecisionReason.condition_failed
reason_of DenialReason.delegation_missing = DecisionReason.delegation_missing
reason_of DenialReason.expired_delegation = DecisionReason.delegation_expired
reason_of DenialReason.revoked_delegation = DecisionReason.delegation_revoked
reason_of DenialReason.delegation_scope_denied = DecisionReason.delegation_scope_denied
reason_of DenialReason.delegation_exceeds_authority = DecisionReason.delegation_exceeds_authority
reason_of DenialReason.run_not_found = DecisionReason.run_not_found
reason_of DenialReason.run_cancelled = DecisionReason.run_cancelled
reason_of DenialReason.run_expired = DecisionReason.run_expired
reason_of DenialReason.run_scope_denied = DecisionReason.run_scope_denied
reason_of DenialReason.run_exceeds_delegation = DecisionReason.run_exceeds_delegation
reason_of DenialReason.parent_run_scope_denied = DecisionReason.parent_run_scope_denied
reason_of DenialReason.agent_revoked = DecisionReason.agent_revoked
reason_of DenialReason.agent_suspended = DecisionReason.agent_suspended
reason_of DenialReason.invalid_delegation = DecisionReason.fail_closed
reason_of DenialReason.unsupported_connector = DecisionReason.fail_closed
reason_of DenialReason.audit_unavailable = DecisionReason.fail_closed

unfoldable pub reason : AuthorizationDecision → DecisionReason
unfolding reason_of
reason (allow g r a m c e) = DecisionReason.allowed_by_policy
reason (deny d k r a p m c e) = reason_of d
