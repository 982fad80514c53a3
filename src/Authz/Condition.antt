-- ===== src/Authz/Condition.antt =====
-- crates/authz/src/evaluator.rs: conditions, evaluated with the evidence of each test.
-- `clock` is what the system clock says, in seconds since 1970, for the whole of one evaluation;
-- `none` stands for a clock before 1970, where the source has "time unavailable".
pub mod Evidence
pub mod Meaning
use multi.Prelude.{
  String, ◌<>◌, Bool, true, false, ◌&&◌, Option, none, some, List, [], ◌∷◌, ◌++◌, map, Dict, lookup,
  Eq, ◌==◌, string_eq, option_eq, contains, contains_key, is_some, if◌then◌else◌, ℤ, leb_ℤ, show_ℤ,
  join,
}
use multi.Contract.Ids.{TenantId}
use multi.Contract.Claims.{ClaimValue, enum, string, integer, boolean, claim_value_eq}
use multi.Contract.Principal.{Principal}
use multi.Authz.Policy.{
  PrincipalAttribute, id, tenant, claim, Condition, Conditions, nil, cons, always, every,
  claim_equals, claim_in, time_bound, tenant_current, resource_attribute_equals,
  resource_attribute_in, relationship_equals, ResourceAttributes,
}
use multi.Authz.Decision.{ConditionEvidence, ConditionResult, pass, fail}

unfoldable pub condition_evidence : String → Bool → Option String → ConditionEvidence
condition_evidence condition passed fact = record {
  condition = condition;
  result = if passed then pass else fail;
  fact = fact;
}

unfoldable pub claim_fact : String → Bool → String
claim_fact key present =
    if present then "claim." <> key <> " present" else "claim." <> key <> " missing"

unfoldable pub resource_fact : String → Bool → String
resource_fact key present =
    if present then "resource." <> key <> " present" else "resource." <> key <> " missing"

unfoldable pub principal_attribute_name : PrincipalAttribute → String
principal_attribute_name id = "id"
principal_attribute_name tenant = "tenant"
principal_attribute_name (claim key) = "claim." <> key

unfoldable pub claim_value_text : ClaimValue → String
unfolding show_ℤ
claim_value_text (enum value) = value
claim_value_text (string value) = value
claim_value_text (integer value) = show_ℤ value
claim_value_text (boolean value) = if value then "true" else "false"

unfoldable pub principal_attribute_value : Principal → PrincipalAttribute → Option ClaimValue
unfolding lookup
principal_attribute_value p id = some (string p.id)
principal_attribute_value p tenant = some (string p.tenant_id)
principal_attribute_value p (claim key) = lookup key p.claims.values

-- `resource.and_then(|resource| resource.values.get(key))`
abbrev pub attribute : Option ResourceAttributes → String → Option ClaimValue
attribute none key = none
attribute (some resource) key = lookup key resource.values

-- `resource.and_then(|resource| resource.tenant_id.as_ref())`
abbrev pub attributed_tenant : Option ResourceAttributes → Option TenantId
attributed_tenant none = none
attributed_tenant (some resource) = resource.tenant_id

-- `actual.map(test).unwrap_or(false)`
abbrev pub is_some_and {ℓ} : {A : Type ℓ} → (A → Bool) → Option A → Bool
is_some_and test none = false
is_some_and test (some a) = test a

abbrev listing : List ClaimValue → String
listing values = join ", " (map claim_value_text values)

abbrev one : String → Bool → String → Bool × List ConditionEvidence
one text matches fact = (matches, condition_evidence text matches (some fact) ∷ [])

unfoldable pub evaluate_claim_equals :
    Principal → String → ClaimValue → Bool × List ConditionEvidence
unfolding condition_evidence
evaluate_claim_equals p key value =
    one ("claim." <> key <> " == " <> claim_value_text value)
      (lookup key p.claims.values == some value) (claim_fact key (contains_key key p.claims.values))

unfoldable pub evaluate_claim_in :
    Principal → String → List ClaimValue → Bool × List ConditionEvidence
unfolding condition_evidence
evaluate_claim_in p key values =
    let present = lookup key p.claims.values in
    one ("claim." <> key <> " in [" <> listing values <> "]")
      (is_some_and (contains values) present) (claim_fact key (is_some present))

unfoldable pub evaluate_time_bound : Option ℤ → ℤ → ℤ → Bool × List ConditionEvidence
unfolding condition_evidence
evaluate_time_bound none start end =
    one ("time between " <> show_ℤ start <> " and " <> show_ℤ end) false "time unavailable"
evaluate_time_bound (some now) start end =
    one ("time between " <> show_ℤ start <> " and " <> show_ℤ end)
      (leb_ℤ start now && leb_ℤ now end) "system time evaluated"

tenant_fact : Bool → Option TenantId → String
tenant_fact matches none = "resource tenant unavailable"
tenant_fact matches (some t) =
    if matches
    then "resource tenant matched current tenant"
    else "resource tenant did not match current tenant"

unfoldable pub evaluate_tenant_current :
    Principal → Option ResourceAttributes → Bool × List ConditionEvidence
unfolding condition_evidence tenant_fact
evaluate_tenant_current p resource =
    let resource_tenant = attributed_tenant resource in
    let matches = is_some_and (λ t. t == p.tenant_id) resource_tenant in
    one "tenant=current" matches (tenant_fact matches resource_tenant)

unfoldable pub evaluate_resource_attribute_equals :
    Option ResourceAttributes → String → ClaimValue → Bool × List ConditionEvidence
unfolding condition_evidence
evaluate_resource_attribute_equals resource key value =
    let actual = attribute resource key in
    one ("resource." <> key <> " == " <> claim_value_text value)
      (is_some_and (λ v. v == value) actual) (resource_fact key (is_some actual))

unfoldable pub evaluate_resource_attribute_in :
    Option ResourceAttributes → String → List ClaimValue → Bool × List ConditionEvidence
unfolding condition_evidence
evaluate_resource_attribute_in resource key values =
    let actual = attribute resource key in
    one ("resource." <> key <> " in [" <> listing values <> "]")
      (is_some_and (contains values) actual) (resource_fact key (is_some actual))

relate : String → PrincipalAttribute → Principal → Option ClaimValue → Bool × List ConditionEvidence
unfolding condition_evidence
relate attribute_name pa p none =
    one ("resource." <> attribute_name <> " == principal." <> principal_attribute_name pa) false
      (resource_fact attribute_name false)
relate attribute_name pa p (some left) =
    let matches = is_some_and (λ right. left == right) (principal_attribute_value p pa) in
    one ("resource." <> attribute_name <> " == principal." <> principal_attribute_name pa) matches
      (if matches then "relationship matched" else "relationship did not match")

unfoldable pub evaluate_relationship_equals :
    Principal
    → Option ResourceAttributes
    → String
    → PrincipalAttribute
    → Bool × List ConditionEvidence
unfolding relate
evaluate_relationship_equals p resource attribute_name pa =
    relate attribute_name pa p (attribute resource attribute_name)

-- The loop of `Condition::All` carries `all_match` and the evidence so far.
unfoldable mutual
  unfolding evaluate_claim_equals evaluate_claim_in evaluate_time_bound evaluate_tenant_current
      evaluate_resource_attribute_equals evaluate_resource_attribute_in evaluate_relationship_equals
      condition_evidence

  pub evaluate_condition :
      Option ℤ → Principal → Option ResourceAttributes → Condition → Bool × List ConditionEvidence
  evaluate_condition clock p r always = (true, condition_evidence "always" true none ∷ [])
  evaluate_condition clock p r (every cs) = evaluate_every clock p r true [] cs
  evaluate_condition clock p r (claim_equals key value) = evaluate_claim_equals p key value
  evaluate_condition clock p r (claim_in key values) = evaluate_claim_in p key values
  evaluate_condition clock p r (time_bound start end) = evaluate_time_bound clock start end
  evaluate_condition clock p r tenant_current = evaluate_tenant_current p r
  evaluate_condition clock p r (resource_attribute_equals key value) =
      evaluate_resource_attribute_equals r key value
  evaluate_condition clock p r (resource_attribute_in key values) =
      evaluate_resource_attribute_in r key values
  evaluate_condition clock p r (relationship_equals name pa) =
      evaluate_relationship_equals p r name pa

  pub evaluate_every :
      Option ℤ
      → Principal
      → Option ResourceAttributes
      → Bool
      → List ConditionEvidence
      → Conditions
      → Bool × List ConditionEvidence
  evaluate_every clock p r all_match evidence nil = (all_match, evidence)
  evaluate_every clock p r all_match evidence (cons c cs) =
      let (matches, more) = evaluate_condition clock p r c in
      evaluate_every clock p r (all_match && matches) (evidence ++ more) cs

unfoldable pub condition_matches : Option ℤ → Principal → Condition → Bool
condition_matches clock p c = (evaluate_condition clock p none c).0

-- What a grant says of the claims that it rests on.
unfoldable mutual
  pub claim_basis : Condition → List String
  claim_basis always = "always" ∷ []
  claim_basis (every cs) = claim_bases cs
  claim_basis (claim_equals key value) = key ∷ []
  claim_basis (claim_in key values) = key ∷ []
  claim_basis (time_bound start end) = "time" ∷ []
  claim_basis tenant_current = "tenant=current" ∷ []
  claim_basis (resource_attribute_equals key value) = ("resource." <> key) ∷ []
  claim_basis (resource_attribute_in key values) = ("resource." <> key) ∷ []
  claim_basis (relationship_equals name pa) = ("resource." <> name) ∷ []

  pub claim_bases : Conditions → List String
  claim_bases nil = []
  claim_bases (cons c cs) = claim_basis c ++ claim_bases cs
