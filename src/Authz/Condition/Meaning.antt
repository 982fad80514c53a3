-- ===== src/Authz/Condition/Meaning.antt =====
-- What a condition means, apart from how it is evaluated.
use multi.Prelude.{
  String, Bool, true, ◌&&◌, Option, none, some, List, [], ◌++◌, ◌≡◌, refl, ◌↔◌, In, contains,
  contains-In, contains_of_In, lookup, ◌==◌, ==_refl, eq_of_==, string_eq, option_eq, ℤ, ◌≤ℤ◌,
  arith, and-eq-true,
}
use multi.Contract.Claims.{ClaimValue, claim_value_eq}
use multi.Contract.Principal.{Principal}
use multi.Authz.Policy.{
  PrincipalAttribute, Condition, Conditions, nil, cons, always, every, claim_equals, claim_in,
  time_bound, tenant_current, resource_attribute_equals, resource_attribute_in, relationship_equals,
  ResourceAttributes,
}
use multi.Authz.Decision.{ConditionEvidence}
use multi.Authz.Condition.{
  evaluate_condition, evaluate_every, attribute, attributed_tenant, relate, is_some_and,
  principal_attribute_value,
}

-- The value is there and satisfies the predicate.
abbrev pub Has : {A : Type 0} → Option A → (A → Type 0) → Type 0
Has none P = ⊥
Has (some a) P = P a

mutual
  pub Holds : Option ℤ → Principal → Option ResourceAttributes → Condition → Type 0
  Holds clock p r always = Unit
  Holds clock p r (every cs) = HoldAll clock p r cs
  Holds clock p r (claim_equals key value) = Has (lookup key p.claims.values) (λ v. v ≡ value)
  Holds clock p r (claim_in key values) = Has (lookup key p.claims.values) (λ v. In v values)
  Holds clock p r (time_bound start end) = Has clock (λ now. (start ≤ℤ now) × (now ≤ℤ end))
  Holds clock p r tenant_current = Has (attributed_tenant r) (λ t. t ≡ p.tenant_id)
  Holds clock p r (resource_attribute_equals key value) = Has (attribute r key) (λ v. v ≡ value)
  Holds clock p r (resource_attribute_in key values) = Has (attribute r key) (λ v. In v values)
  Holds clock p r (relationship_equals name pa) =
      Has (attribute r name) (λ left. Has (principal_attribute_value p pa) (λ right. left ≡ right))

  pub HoldAll : Option ℤ → Principal → Option ResourceAttributes → Conditions → Type 0
  HoldAll clock p r nil = Unit
  HoldAll clock p r (cons c cs) = Holds clock p r c × HoldAll clock p r cs

-- A test on an optional value against the predicate that it decides.
is_some_and_iff :
    {A : Type 0} (test : A → Bool) (P : A → Type 0)
    → ((a : A) → (test a ≡ true) ↔ P a)
    → (o : Option A) → (is_some_and test o ≡ true) ↔ Has o P
is_some_and_iff test P h none = (λ e. cc, λ e. absurd e)
is_some_and_iff test P h (some a) = h a

==_iff : (v w : ClaimValue) → ((v == w) ≡ true) ↔ (v ≡ w)
==_iff v w = (eq_of_== v w, λ e. rw e (==_refl w))

contains_iff : (vs : List ClaimValue) (v : ClaimValue) → (contains vs v ≡ true) ↔ In v vs
contains_iff vs v = (contains-In vs v, contains_of_In vs v)

claim_equals_iff :
    (o : Option ClaimValue) (value : ClaimValue)
    → ((o == some value) ≡ true) ↔ Has o (λ v. v ≡ value)
claim_equals_iff none value = (λ e. ground arith, λ e. absurd e)
claim_equals_iff (some v) value = (λ e. ground arith, λ e. ground arith)

time_iff :
    (clock : Option ℤ) (p : Principal) (r : Option ResourceAttributes) (start end : ℤ)
    → ((evaluate_condition clock p r (time_bound start end)).0 ≡ true)
      ↔ Has clock (λ now. (start ≤ℤ now) × (now ≤ℤ end))
unfolding evaluate_condition
time_iff none p r start end = (λ e. cc, λ e. absurd e)
time_iff (some now) p r start end = (λ e. ground arith, λ e. ground arith)

relate_iff :
    (name : String) (pa : PrincipalAttribute) (p : Principal) (o : Option ClaimValue)
    → ((relate name pa p o).0 ≡ true)
      ↔ Has o (λ left. Has (principal_attribute_value p pa) (λ right. left ≡ right))
unfolding relate
relate_iff name pa p none = (λ e. cc, λ e. absurd e)
relate_iff name pa p (some left) =
    is_some_and_iff _ _ (λ right. ==_iff left right) (principal_attribute_value p pa)

mutual
  unfolding evaluate_condition evaluate_every Holds HoldAll

  meaning :
      (clock : Option ℤ) (p : Principal) (r : Option ResourceAttributes) (c : Condition)
      → ((evaluate_condition clock p r c).0 ≡ true) ↔ Holds clock p r c
  meaning clock p r always = (λ e. tt, λ e. refl)
  meaning clock p r (every cs) = (
    λ e. ((meaning_every clock p r true [] cs).0 e).1,
    λ h. (meaning_every clock p r true [] cs).1 (refl, h),
  )
  meaning clock p r (claim_equals key value) = claim_equals_iff (lookup key p.claims.values) value
  meaning clock p r (claim_in key values) =
      is_some_and_iff _ _ (contains_iff values) (lookup key p.claims.values)
  meaning clock p r (time_bound start end) = time_iff clock p r start end
  meaning clock p r tenant_current =
      is_some_and_iff _ _ (λ t. (eq_of_== t p.tenant_id, λ e. rw e (==_refl p.tenant_id)))
        (attributed_tenant r)
  meaning clock p r (resource_attribute_equals key value) =
      is_some_and_iff _ _ (λ v. ==_iff v value) (attribute r key)
  meaning clock p r (resource_attribute_in key values) =
      is_some_and_iff _ _ (contains_iff values) (attribute r key)
  meaning clock p r (relationship_equals name pa) = relate_iff name pa p (attribute r name)

  meaning_every :
      (clock : Option ℤ) (p : Principal) (r : Option ResourceAttributes) (m : Bool)
      (es : List ConditionEvidence) (cs : Conditions)
      → ((evaluate_every clock p r m es cs).0 ≡ true) ↔ ((m ≡ true) × HoldAll clock p r cs)
  meaning_every clock p r m es nil = (λ e. (e, tt), λ h. h.0)
  meaning_every clock p r m es (cons c cs) =
      let here = meaning clock p r c in
      let (matches, more) = evaluate_condition clock p r c in
      let there = meaning_every clock p r (m && matches) (es ++ more) cs in
      (
        λ e.
            let (both, rest) = there.0 e in
            let (before, now) = and-eq-true m matches both in (before, (here.0 now, rest)),
        λ (before, (now, rest)). there.1 (rw (before, here.1 now) refl, rest),
      )

-- A condition is met exactly if it holds: the evaluator decides the meaning of conditions, with
-- all parts of `All` required, absent claims, attributes and clock failing their tests.
pub evaluate_condition_iff :
    (clock : Option ℤ) (p : Principal) (r : Option ResourceAttributes) (c : Condition)
    → ((evaluate_condition clock p r c).0 ≡ true) ↔ Holds clock p r c
evaluate_condition_iff = meaning
