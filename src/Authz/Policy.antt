-- ===== src/Authz/Policy.antt =====
-- crates/authz/src/policy.rs: policies, rules, conditions, resources and requests.
use multi.Prelude.{
  String, ◌<>◌, Bool, true, ◌&&◌, ◌||◌, Option, none, some, List, [], Dict, insert, Eq, ◌==◌,
  string_eq, ℤ,
}
use multi.Contract.Ids.{Capability, DelegationId, PolicyId, PrincipalId, RunId, TaskId, TenantId}
use multi.Contract.Claims.{ClaimValue}

pub data Effect : Type 0 where
  allow deny : Effect

unfoldable pub Effect-discrete : Discrete Effect
Effect-discrete = hlevel

instance abbrev pub effect_eq : Eq Effect
effect_eq = record { dec = Effect-discrete }

abbrev pub Action : Type 0
Action = String

pub data PrincipalAttribute : Type 0 where
  id tenant : PrincipalAttribute
  claim : String → PrincipalAttribute

-- `Condition::All` holds a vector of conditions.
mutual
  pub data Condition : Type 0 where
    always : Condition
    every : Conditions → Condition
    claim_equals : String → ClaimValue → Condition
    claim_in : String → List ClaimValue → Condition
    time_bound : ℤ → ℤ → Condition
    tenant_current : Condition
    resource_attribute_equals : String → ClaimValue → Condition
    resource_attribute_in : String → List ClaimValue → Condition
    relationship_equals : String → PrincipalAttribute → Condition

  pub data Conditions : Type 0 where
    nil : Conditions
    cons : Condition → Conditions → Conditions

pub record ResourceRef : Type 0 where
  pub resource_type : String
  pub resource_id : String
  pub tenant_id : TenantId

unfoldable pub opaque : ResourceRef → String
opaque r = r.resource_type <> ":" <> r.resource_id

pub record ResourceSelector : Type 0 where
  pub resource_type : String
  pub resource_id : Option String

unfoldable pub any : String → ResourceSelector
any resource_type = record { resource_type = resource_type; resource_id = none }

unfoldable pub exact : String → String → ResourceSelector
exact resource_type resource_id = record {
  resource_type = resource_type;
  resource_id = some resource_id;
}

-- `map(|id| id == "*" || id == &resource.resource_id).unwrap_or(true)`
unfoldable pub selects_id : Option String → String → Bool
selects_id none resource_id = true
selects_id (some wanted) resource_id = wanted == "*" || wanted == resource_id

unfoldable pub matches : ResourceSelector → ResourceRef → Bool
unfolding selects_id
matches s r = s.resource_type == r.resource_type && selects_id s.resource_id r.resource_id

pub record Rule : Type 0 where
  pub capability : Capability
  pub condition : Condition
  pub resource : Option ResourceSelector
  pub action : Option Action
  pub effect : Effect

-- `Rule::allow`
unfoldable pub allow_rule : Capability → Condition → Rule
allow_rule capability condition = record {
  capability = capability;
  condition = condition;
  resource = none;
  action = none;
  effect = Effect.allow;
}

pub record Policy : Type 0 where
  pub id : PolicyId
  pub rules : List Rule

pub record ResourceAttributes : Type 0 where
  pub tenant_id : Option TenantId
  pub values : Dict String ClaimValue

unfoldable pub no_attributes : ResourceAttributes
no_attributes = record { tenant_id = none; values = [] }

unfoldable pub with_tenant : ResourceAttributes → TenantId → ResourceAttributes
with_tenant a tenant_id = record a { tenant_id = some tenant_id }

unfoldable pub with_value : ResourceAttributes → String → ClaimValue → ResourceAttributes
with_value a key value = record a { values = insert key value a.values }

pub record AuthorizationContext : Type 0 where
  pub values : Dict String ClaimValue
  pub run_id : Option RunId
  pub task_id : Option TaskId
  pub agent_principal : Option PrincipalId
  pub delegation_id : Option DelegationId
  pub delegation_chain : List DelegationId

pub record AuthorizationRequest : Type 0 where
  pub principal : PrincipalId
  pub tenant : TenantId
  pub capability : Capability
  pub action : Action
  pub resource : Option ResourceRef
  pub context : AuthorizationContext
