-- ===== src/Authz/Condition/Evidence.antt =====
-- The evidence that a condition leaves, against its outcome.
use multi.Prelude.{
  ℕ, ◌+◌, Bool, true, false, ◌&&◌, Option, List, [], ◌∷◌, ◌++◌, ◌≡◌, refl, length, length-append, ℤ,
  arith, String,
}
use multi.Contract.Claims.{ClaimValue}
use multi.Contract.Principal.{Principal}
use multi.Authz.Policy.{
  PrincipalAttribute, Condition, Conditions, nil, cons, always, every, claim_equals, claim_in,
  time_bound, tenant_current, resource_attribute_equals, resource_attribute_in, relationship_equals,
  ResourceAttributes,
}
use multi.Authz.Decision.{ConditionEvidence, ConditionResult, pass, fail}
use multi.Authz.Condition.{evaluate_condition, evaluate_every, attribute, relate}

abbrev pub passed : ConditionResult → Bool
passed pass = true
passed fail = false

pub all_passed : List ConditionEvidence → Bool
all_passed [] = true
all_passed (e ∷ es) = passed e.result && all_passed es

all_passed-append :
    (xs ys : List ConditionEvidence) → all_passed (xs ++ ys) ≡ (all_passed xs && all_passed ys)
unfolding all_passed
all_passed-append [] ys = refl
all_passed-append (x ∷ xs) ys = ground (arith, all_passed-append xs ys)

-- The tests that a condition is made of.
mutual
  pub tests : Condition → ℕ
  tests (every cs) = tests_of cs
  tests _ = 1

  pub tests_of : Conditions → ℕ
  tests_of nil = 0
  tests_of (cons c cs) = tests c + tests_of cs

abbrev Agrees : ℕ → Bool × List ConditionEvidence → Type 0
Agrees n outcome = (outcome.0 ≡ all_passed outcome.1) × (length outcome.1 ≡ n)

relate-Agrees :
    (name : String) (pa : PrincipalAttribute) (p : Principal) (left : Option ClaimValue)
    → Agrees 1 (relate name pa p left)
unfolding relate all_passed
relate-Agrees name pa p left = ground arith

mutual
  unfolding evaluate_condition evaluate_every tests all_passed

  agrees :
      (clock : Option ℤ) (p : Principal) (r : Option ResourceAttributes) (c : Condition)
      → Agrees (tests c) (evaluate_condition clock p r c)
  agrees clock p r always = ground arith
  agrees clock p r (every cs) =
      let all = Agrees-every clock p r true [] cs refl in (all.0, omega (arith, all.1))
  agrees clock p r (claim_equals key value) = ground arith
  agrees clock p r (claim_in key values) = ground arith
  agrees clock p r (time_bound start end) = ground arith
  agrees clock p r tenant_current = ground arith
  agrees clock p r (resource_attribute_equals key value) = ground arith
  agrees clock p r (resource_attribute_in key values) = ground arith
  agrees clock p r (relationship_equals name pa) = relate-Agrees name pa p (attribute r name)

  Agrees-every :
      (clock : Option ℤ) (p : Principal) (r : Option ResourceAttributes) (m : Bool)
      (es : List ConditionEvidence) (cs : Conditions)
      → m ≡ all_passed es
      → Agrees (length es + tests_of cs) (evaluate_every clock p r m es cs)
  Agrees-every clock p r m es nil h = (h, omega arith)
  Agrees-every clock p r m es (cons c cs) h =
      let (matches, more) = evaluate_condition clock p r c in
      let (same, count) = agrees clock p r c in
      let ih =
        Agrees-every clock p r (m && matches) (es ++ more) cs
          (ground (arith, all_passed-append es more)) in
      (ih.0, omega (arith, ih.1, length-append es more))

-- A condition is met exactly if every test in its evidence passed, and the evidence has one entry
-- for each test that the condition is made of, whatever the earlier ones gave.
pub evaluate_condition-evidence :
    (clock : Option ℤ) (p : Principal) (r : Option ResourceAttributes) (c : Condition)
    → ((evaluate_condition clock p r c).0 ≡ all_passed (evaluate_condition clock p r c).1)
      × (length (evaluate_condition clock p r c).1 ≡ tests c)
evaluate_condition-evidence = agrees
