-- ===== src/Boundary/Control.antt =====
-- crates/boundary/src/control.rs: the live authority state and the changes of it. The tokens of
-- approvals are left out: they are hashed by a hasher of Rust's library.
pub mod Reverting
use multi.Prelude.{
  ℕ, ◌+◌, ◌%◌, ◌^◌, String, Bool, not, Option, none, some, List, [], ◌∷◌, Dict, insert, Eq, ◌==◌,
  string_eq, String-discrete, if◌then◌else◌, ltb, ℤ, Result, ok, err, ◌>>=◌, ◌>>◌,
}
use multi.Contract.Ids.{Capability}
use multi.Authz.Evaluator.{return_if}
use multi.Authz.Policy.{Policy}
use multi.Dsl.Passwords.{PasswordPolicy, validate}

-- crates/boundary/src/request.rs
pub data Method : Type 0 where
  get post put patch delete head options : Method

unfoldable pub Method-discrete : Discrete Method
Method-discrete = hlevel

pub record RouteId : Type 0 where
  pub method : Method
  pub path : String

unfoldable pub RouteId-discrete : Discrete RouteId
RouteId-discrete = hlevel (Method-discrete, String-discrete)

instance abbrev pub route_id_eq : Eq RouteId
route_id_eq = record { dec = RouteId-discrete }

pub record RouteProtection : Type 0 where
  pub capability : Option String

pub record ProviderState : Type 0 where
  pub enabled : Bool

pub record LiveAuthorityState : Type 0 where
  pub route_protection : Dict RouteId RouteProtection
  pub capability_policies : Dict String Policy
  pub provider_state : Dict String ProviderState
  pub password_policy : Option PasswordPolicy
  pub revision : ℕ

-- `LiveAuthorityState::new`
unfoldable pub initial : LiveAuthorityState
initial = record {
  route_protection = [];
  capability_policies = [];
  provider_state = [];
  password_policy = none;
  revision = 0;
}

-- A `u64` that wraps in a release build.
unfoldable pub next_revision : LiveAuthorityState → ℕ
next_revision s = (s.revision + 1) % 2 ^ 64

pub data AuthorityChange : Type 0 where
  protect_route : Method → String → String → AuthorityChange
  unprotect_route : Method → String → AuthorityChange
  set_capability_policy : String → Policy → AuthorityChange
  set_provider_enabled : String → Bool → AuthorityChange
  set_password_policy : PasswordPolicy → AuthorityChange
  revert : String → AuthorityChange

unfoldable pub change_type : AuthorityChange → String
change_type (protect_route method path capability) = "protect_route"
change_type (unprotect_route method path) = "unprotect_route"
change_type (set_capability_policy capability policy) = "set_capability_policy"
change_type (set_provider_enabled provider enabled) = "set_provider_enabled"
change_type (set_password_policy policy) = "set_password_policy"
change_type (revert change_id) = "revert"

pub record PreviewState : Type 0 where
  pub route_protection : Dict RouteId RouteProtection
  pub capability_policies : Dict String Policy
  pub provider_state : Dict String ProviderState
  pub password_policy : Option PasswordPolicy

-- `impl From<&LiveAuthorityState>`
unfoldable pub preview_of : LiveAuthorityState → PreviewState
preview_of s = record {
  route_protection = s.route_protection;
  capability_policies = s.capability_policies;
  provider_state = s.provider_state;
  password_policy = s.password_policy;
}

pub record Preview : Type 0 where
  pub before : PreviewState
  pub after : PreviewState

pub record ChangeProposal : Type 0 where
  pub id : String
  pub change : AuthorityChange
  pub preview : Preview
  pub revision : ℕ

-- crates/boundary/src/proposal_store.rs, `ChangeRecord`. A `SystemTime` is an integer.
pub record ChangeRecord : Type 0 where
  pub change_id : String
  pub proposal_id : String
  pub change : AuthorityChange
  pub previous_state : LiveAuthorityState
  pub resulting_state : LiveAuthorityState
  pub applied_at : ℤ
  pub applied_by : Option String
  pub reverted_change_id : Option String

-- `BTreeMap::remove`
unfoldable pub remove {ℓ} : {V : Type ℓ} → RouteId → Dict RouteId V → Dict RouteId V
remove k [] = []
remove k ((j, v) ∷ d) = let rest = remove k d in if j == k then rest else (j, v) ∷ rest

-- What a change makes of the state that has the next revision already.
changed : LiveAuthorityState → AuthorityChange → Result String LiveAuthorityState
unfolding remove validate
changed next (protect_route method path capability) = ok (record next {
  route_protection =
      insert (record { method = method; path = path }) (record { capability = some capability })
        next.route_protection;
})
changed next (unprotect_route method path) = ok (record next {
  route_protection = remove (record { method = method; path = path }) next.route_protection;
})
changed next (set_capability_policy capability policy) =
    ok (record next { capability_policies = insert capability policy next.capability_policies })
changed next (set_provider_enabled provider enabled) = ok (record next {
  provider_state = insert provider (record { enabled = enabled }) next.provider_state;
})
changed next (set_password_policy policy) =
    validate policy >> ok (record next { password_policy = some policy })
changed next (revert change_id) = err "revert requires an applied change record"

unfoldable pub apply_change :
    LiveAuthorityState → AuthorityChange → Result String LiveAuthorityState
unfolding changed next_revision
apply_change current change = changed (record current { revision = next_revision current }) change

unfoldable pub apply_revert_change :
    LiveAuthorityState → String → ChangeRecord → Result String LiveAuthorityState
unfolding next_revision
apply_revert_change current change_id r = do
  return_if (not (r.change_id == change_id)) "revert change id does not match the stored record"
  return_if (ltb current.revision r.resulting_state.revision)
      "cannot revert against an older authority state"
  ok (record (r.previous_state) { revision = next_revision current })
