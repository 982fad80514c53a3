-- ===== src/Authz/Evaluator/RequestCheck/Rules.antt =====
-- What the loop over the rules leaves: the first rule that matches decides.
use multi.Prelude.{
  ℕ, suc, Bool, false, ◌&&◌, ◌||◌, Option, none, some, List, [], ◌∷◌, ◌≡◌, refl, ◌∙◌, inl, inr,
  find, any, is_some, ℤ, arith, Bool-cases,
}
use multi.Contract.Principal.{Principal}
use multi.Contract.Tenant.{TenantContext}
use multi.Authz.Policy.{Policy, Rule, ResourceAttributes, AuthorizationRequest}
use multi.Authz.Decision.{ConditionEvidence}
use multi.Authz.Condition.{evaluate_condition}
use multi.Authz.Evaluator.RequestCheck.{
  rule_applies, rule_decision, Scan, decided, undecided, scan_rules,
}

module _ (clock : Option ℤ) (policy : Policy) (principal : Principal) (tenant : TenantContext)
    (request : AuthorizationRequest) (attributes : Option ResourceAttributes) where
  -- The rule is for this request, and its condition is met.
  abbrev pub rule_matches : Rule → Bool
  rule_matches rule =
      rule_applies rule request && (evaluate_condition clock principal attributes rule.condition).0

  -- The loop ends at the first rule that matches, with what that rule decides; where none
  -- matches it leaves evidence exactly if some rule was for this request, or evidence was there.
  pub data Scanned (failed : Option (List ConditionEvidence)) (rules : List Rule) (s : Scan)
      : Type 0 where
    stopped :
        (index : ℕ) (rule : Rule)
        → find rule_matches rules ≡ some rule
        → s
          ≡ decided (
              rule_decision policy principal tenant request index rule
                (evaluate_condition clock principal attributes rule.condition).1)
        → Scanned failed rules s
    ran_out :
        (left : Option (List ConditionEvidence))
        → find rule_matches rules ≡ none
        → s ≡ undecided left
        → is_some left ≡ (is_some failed || any (λ rule. rule_applies rule request) rules)
        → Scanned failed rules s

  abbrev some_apply : List Rule → Bool
  some_apply = any (λ rule. rule_applies rule request)

  -- A rule that does not match changes nothing but what evidence there may be.
  pass_over :
      (failed carried : Option (List ConditionEvidence)) (rule : Rule) (rules : List Rule)
      (s : Scan)
      → rule_matches rule ≡ false
      → (is_some carried || some_apply rules) ≡ (is_some failed || some_apply (rule ∷ rules))
      → Scanned carried rules s
      → Scanned failed (rule ∷ rules) s
  pass_over failed carried rule rules s miss same (stopped index r found e) =
      stopped index r (rw miss found) e
  pass_over failed carried rule rules s miss same (ran_out left found e kept) =
      ran_out left (rw miss found) e (kept ∙ same)

  pub scan_rules-Scanned :
      (index : ℕ) (failed : Option (List ConditionEvidence)) (rules : List Rule)
      → Scanned failed rules
          (scan_rules clock policy principal tenant request attributes index failed rules)
  unfolding scan_rules
  scan_rules-Scanned index failed [] = ran_out failed refl refl (ground arith)
  scan_rules-Scanned index failed (rule ∷ rules) = elim (Bool-cases (rule_applies rule request)) [
    | inr skipped ↦ rw skipped (
        pass_over failed failed rule rules _ (ground arith) (ground arith)
          (scan_rules-Scanned (suc index) failed rules))
    | inl applies ↦
        elim (Bool-cases (evaluate_condition clock principal attributes rule.condition).0) [
          | inr unmet ↦
              rw (applies, unmet)
                (pass_over failed
                  (some (evaluate_condition clock principal attributes rule.condition).1) rule rules
                  _ (ground arith) (ground arith) (scan_rules-Scanned (suc index) _ rules))
          | inl met ↦ rw (applies, met) (stopped index rule (rw (applies, met)) refl)
        ]
  ]
