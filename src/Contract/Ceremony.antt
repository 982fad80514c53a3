-- ===== src/Contract/Ceremony.antt =====
-- crates/contract/src/authentication.rs: the life cycle of an authentication ceremony.
pub mod Lifecycle
use multi.Prelude.{String, ◌<>◌, Bool, true, false, Option, List, ℤ, Result, ok, err, if◌then◌else◌}

pub data AuthenticationMethod : Type 0 where
  password external_identity passkey mfa device_approval qr recovery : AuthenticationMethod

pub data AuthenticationCeremonyState : Type 0 where
  created challenged awaiting_user verified completed failed expired cancelled :
      AuthenticationCeremonyState

unfoldable pub as_str : AuthenticationCeremonyState → String
as_str created = "created"
as_str challenged = "challenged"
as_str awaiting_user = "awaiting_user"
as_str verified = "verified"
as_str completed = "completed"
as_str failed = "failed"
as_str expired = "expired"
as_str cancelled = "cancelled"

unfoldable pub can_transition_to : AuthenticationCeremonyState → AuthenticationCeremonyState → Bool
can_transition_to created challenged = true
can_transition_to created awaiting_user = true
can_transition_to created failed = true
can_transition_to created expired = true
can_transition_to created cancelled = true
can_transition_to challenged awaiting_user = true
can_transition_to challenged verified = true
can_transition_to challenged failed = true
can_transition_to challenged expired = true
can_transition_to challenged cancelled = true
can_transition_to awaiting_user verified = true
can_transition_to awaiting_user failed = true
can_transition_to awaiting_user expired = true
can_transition_to awaiting_user cancelled = true
can_transition_to verified completed = true
can_transition_to verified failed = true
can_transition_to verified expired = true
can_transition_to verified cancelled = true
can_transition_to _ _ = false

pub record AuthenticationCeremony : Type 0 where
  pub id : String
  pub method : AuthenticationMethod
  pub principal_hint : Option String
  pub state : AuthenticationCeremonyState
  pub created_at : ℤ
  pub expires_at : ℤ

unfoldable pub new : String → AuthenticationMethod → Option String → ℤ → ℤ → AuthenticationCeremony
new id method principal_hint created_at expires_at = record {
  id = id;
  method = method;
  principal_hint = principal_hint;
  state = created;
  created_at = created_at;
  expires_at = expires_at;
}

-- The ceremony after the call, and what the call returns.
unfoldable pub transition :
    AuthenticationCeremony
    → AuthenticationCeremonyState
    → AuthenticationCeremony × Result String (Unit {0})
unfolding can_transition_to as_str
transition c next = if can_transition_to c.state next then (record c { state = next }, ok tt) else (
  c,
  err (
      "cannot transition authentication ceremony from " <> as_str c.state <> " to " <> as_str next),
)
