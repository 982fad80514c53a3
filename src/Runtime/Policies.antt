-- ===== src/Runtime/Policies.antt =====
-- crates/runtime/src/policy_store.rs, and crates/runtime/src/mesh.rs, `policy_from_config`.
use multi.Prelude.{
  String, Option, none, some, List, [], ◌∷◌, ◌++◌, map, Dict, lookup, insert, string_eq,
  if◌then◌else◌,
}
use multi.Contract.Ids.{PolicyId}
use multi.Contract.Claims.{ClaimValue}
use multi.Contract.Tenant.{TenantContext}
use multi.Authz.Policy.{
  Condition, Conditions, always, every, tenant_current, claim_equals, claim_in, nil, cons, Effect,
  Policy, ResourceSelector, any, Rule,
}
use multi.Dsl.Model.{AuthConfig, PolicyClaimCondition, PolicyDef}

abbrev pub Store : Type 0
Store = Dict PolicyId Policy

unfoldable pub put : Store → Policy → Store
put s policy = insert policy.id policy s

unfoldable pub policy_for : Store → TenantContext → Option Policy
policy_for s tenant = lookup tenant.policy_id s

-- A claim with one value is compared, one with several, or none, is looked for among them.
claim_condition : String → List ClaimValue → Condition
claim_condition key (value ∷ []) = claim_equals key value
claim_condition key values = claim_in key values

condition_of_claim : PolicyClaimCondition → Condition
unfolding claim_condition
condition_of_claim c = claim_condition c.claim (map ClaimValue.enum c.values)

conditions_of : PolicyDef → List Condition
unfolding condition_of_claim
conditions_of p =
    (if p.tenant_current then tenant_current ∷ [] else []) ++ map condition_of_claim p.claims

to_conditions : List Condition → Conditions
to_conditions [] = nil
to_conditions (c ∷ cs) = cons c (to_conditions cs)

-- `match conditions.len()`
combined : List Condition → Condition
unfolding to_conditions
combined [] = always
combined (c ∷ []) = c
combined (c ∷ d ∷ cs) = every (to_conditions (c ∷ d ∷ cs))

selector_of : Option String → Option ResourceSelector
selector_of none = none
selector_of (some resource) = some (any resource)

unfoldable pub rule_of : PolicyDef → Rule
unfolding conditions_of combined selector_of
rule_of p = record {
  capability = p.capability;
  condition = combined (conditions_of p);
  resource = selector_of p.resource;
  action = p.action;
  effect = Effect.allow;
}

rules_of : List PolicyDef → PolicyId → Option Policy
unfolding rule_of
rules_of [] id = none
rules_of (p ∷ ps) id = some (record { id = id; rules = map rule_of (p ∷ ps) })

unfoldable pub policy_from_config : AuthConfig → TenantContext → Option Policy
unfolding rules_of
policy_from_config config tenant = rules_of config.policies tenant.policy_id
