-- ===== src/Tests/Decisions.antt =====
-- Requests, and what is decided of them.
use multi.Prelude.{
  string_eq, String, String-discrete, Option-discrete, true, none, some, [], ◌≡◌, refl, pos, lookup,
  length,
}
use multi.Contract.Claims.{ClaimValue-discrete}
use multi.Contract.Scope.{is_subset_of, is_unconstrained}
use multi.Contract.Delegation.{is_valid_at, DelegationStatus-discrete}
use multi.Contract.Principal.{PrincipalKind-discrete}
use multi.Authz.Policy.{Condition, every, cons, nil, time_bound, AuthorizationRequest}
use multi.Authz.Reason.{tenant_mismatch, policy_denied}
use multi.Authz.Decision.{denial_reason, is_allowed, grant, conditions}
use multi.Authz.Condition.{evaluate_condition}
use multi.Authz.Condition.Evidence.{tests, all_passed, evaluate_condition-evidence}
use multi.Authz.Condition.Meaning.{Holds, evaluate_condition_iff}
use multi.Authz.Evaluator.{delegation_scope_matches, delegated_grant}
use multi.Authz.Evaluator.Narrowing.{delegation_scope_matches-narrows}
use multi.Authz.Evaluator.RequestCheck.{
  evaluate_authorization_request, resource_tenant, rule_applies,
}
use multi.Authz.Evaluator.RequestCheck.Decides.{
  Authorized, Admitted, whole, evaluate_authorization_request_iff,
}
use multi.Authz.Evaluator.RequestCheck.Grants.{IsFor, evaluate_authorization_request-IsFor}
use multi.Authz.Evaluator.RequestCheck.Reasons.{Explains}
use multi.Authz.Evaluator.RequestCheck.Explained.{denial_reason-Explains}
use multi.Authz.Evaluator.RequestCheck.Denials.{denial_reason-deny_rule}
use multi.Tests.Data.{
  acme, alice, bot, is_editor, no_delete, main_policy, documents, one_document, delegation_to,
  document, foreign_document, request_of,
}

abbrev publish : AuthorizationRequest
publish = request_of "bot" "publish" document

evaluate_authorization_request_iff_example :
    Authorized none
      (some main_policy)
      (some bot)
      (some acme)
      (some (delegation_to "bot"))
      publish
      none
      (pos 20)
unfolding evaluate_authorization_request is_allowed String-discrete PrincipalKind-discrete
    is_valid_at DelegationStatus-discrete delegation_scope_matches is_unconstrained
evaluate_authorization_request_iff_example =
    (evaluate_authorization_request_iff none (some main_policy) (some bot) (some acme)
        (some (delegation_to "bot")) publish none (pos 20)).0
      refl

evaluate_authorization_request-IsFor_example :
    IsFor none main_policy bot acme
      (some (delegation_to "bot"))
      publish
      none
      (pos 20)
      (delegated_grant main_policy bot acme (delegation_to "bot") "publish")
unfolding evaluate_authorization_request grant String-discrete PrincipalKind-discrete is_valid_at
    DelegationStatus-discrete delegation_scope_matches is_unconstrained
evaluate_authorization_request-IsFor_example =
    evaluate_authorization_request-IsFor none main_policy bot acme (some (delegation_to "bot"))
      publish none (pos 20) (delegated_grant main_policy bot acme (delegation_to "bot") "publish")
      refl

delegation_scope_matches-narrows_example : delegation_scope_matches documents publish none ≡ true
unfolding is_subset_of Option-discrete String-discrete delegation_scope_matches is_unconstrained
delegation_scope_matches-narrows_example =
    delegation_scope_matches-narrows (record one_document { attributes = [] }) documents publish
      none refl refl

admitted :
    (capability : String)
    → Admitted main_policy alice acme (request_of "alice" capability document) none
unfolding resource_tenant
admitted capability = record {
  own_request = refl;
  own_tenant = refl;
  requested_tenant = refl;
  own_policy = refl;
  resource_in_tenant = refl;
  active_agent = λ e. cc;
}

denial_reason-Explains_example :
    Explains none main_policy alice acme none
      (request_of "alice" "edit" foreign_document)
      none
      (pos 20)
      tenant_mismatch
unfolding evaluate_authorization_request denial_reason resource_tenant String-discrete
denial_reason-Explains_example =
    (denial_reason-Explains none main_policy alice acme none
        (request_of "alice" "edit" foreign_document) none (pos 20) tenant_mismatch).0
      refl

denial_reason-deny_rule_example :
    (denial_reason (
        whole none main_policy alice acme none (request_of "alice" "delete" document) none (pos 20))
      ≡ some policy_denied)
    × (conditions (
          whole none main_policy alice acme none
            (request_of "alice" "delete" document)
            none
            (pos 20))
        ≡ (evaluate_condition none alice none no_delete.condition).1)
unfolding rule_applies String-discrete evaluate_condition
denial_reason-deny_rule_example =
    denial_reason-deny_rule none main_policy alice acme none (request_of "alice" "delete" document)
      none (pos 20) (admitted "delete") no_delete refl refl

abbrev editor_by_day : Condition
editor_by_day = every (cons is_editor (cons (time_bound (pos 5) (pos 9)) nil))

evaluate_condition_iff_example : Holds (some (pos 7)) alice none editor_by_day
unfolding evaluate_condition Option-discrete lookup String-discrete ClaimValue-discrete
evaluate_condition_iff_example =
    (evaluate_condition_iff (some (pos 7)) alice none editor_by_day).0 refl

evaluate_condition-evidence_example :
    ((evaluate_condition (some (pos 12)) alice none editor_by_day).0
      ≡ all_passed (evaluate_condition (some (pos 12)) alice none editor_by_day).1)
    × (length (evaluate_condition (some (pos 12)) alice none editor_by_day).1 ≡ tests editor_by_day)
evaluate_condition-evidence_example =
    evaluate_condition-evidence (some (pos 12)) alice none editor_by_day
