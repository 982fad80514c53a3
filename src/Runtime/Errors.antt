-- ===== src/Runtime/Errors.antt =====
-- crates/runtime/src/error.rs, and the error helpers at the end of crates/runtime/src/mesh.rs.
use multi.Prelude.{String, ◌==◌, string_eq, if◌then◌else◌, Result, ok, err}
use multi.Authz.Reason.{DenialReason, tenant_mismatch, unknown_principal, invalid_delegation}

pub data AuthLifecycleStage : Type 0 where
  tenant_resolution connector_resolution provider_authentication identity_resolution
        principal_resolution session_validation claims_resolution policy_evaluation
        delegation_management agent_lifecycle runtime_context configuration :
      AuthLifecycleStage

pub record AuthError : Type 0 where
  pub stage : AuthLifecycleStage
  pub message : String
  pub denial : DenialReason

unfoldable pub auth_error : AuthLifecycleStage → DenialReason → String → AuthError
auth_error stage denial message = record { stage = stage; message = message; denial = denial }

unfoldable pub principal_error : String → AuthError
unfolding auth_error
principal_error message =
    auth_error principal_resolution
      (if message == "tenant mismatch" then tenant_mismatch else unknown_principal) message

unfoldable pub delegation_error : String → AuthError
unfolding auth_error
delegation_error = auth_error delegation_management invalid_delegation

unfoldable pub run_error : String → DenialReason → AuthError
unfolding auth_error
run_error message denial = auth_error delegation_management denial message

abbrev pub map_err {ℓ} : {A : Type ℓ} {E F : Type 0} → (E → F) → Result E A → Result F A
map_err f (ok a) = ok a
map_err f (err e) = err (f e)
