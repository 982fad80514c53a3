-- ===== src/Tests/Envelopes.antt =====
-- Envelopes and the check of one capability.
use multi.Contract.Claims.{ClaimValue-discrete}
use multi.Authz.Condition.{evaluate_condition, condition_matches}
use multi.Contract.Principal.{AgentState-discrete, PrincipalKind-discrete}
use multi.Prelude.{
  String-discrete, Option-discrete, true, ap, ◌∙◌, ne_of_==, string_eq, none, some, [], ◌∷◌, ◌≡◌,
  refl, ◌⊎◌, In, pos, lookup, inl, inr, arith,
}
use multi.Contract.Delegation.{DelegationStatus-discrete, Delegation, is_valid_at}
use multi.Authz.Policy.{AuthorizationRequest}
use multi.Authz.Reason.{policy_denied, capability_not_granted}
use multi.Authz.Decision.{CapabilityEnvelope, allows, is_allowed, denial_reason}
use multi.Authz.Evaluator.{claim_grant, delegated_grant, evaluate_with_delegations}
use multi.Authz.Evaluator.Envelope.{ByClaim, ByDelegation, evaluate_with_delegations_iff}
use multi.Authz.Evaluator.RequestCheck.{
  rule_applies, resource_tenant, evaluate_authorization_request,
}
use multi.Authz.Evaluator.CapabilityCheck.{evaluate_capability}
use multi.Authz.Evaluator.CapabilityCheck.Allows.{
  Admits, Holds, evaluate_capability_iff, evaluate_capability-allows,
}
use multi.Authz.Evaluator.CapabilityCheck.Gaps.{deny_rule_gap, service_delegation_gap}
use multi.Tests.Data.{
  acme, alice, bot, mailer, edit, no_delete, main_policy, delegation_to, document, request_of,
}

-- The first rule of the policy denies, and the envelope has its capability all the same.
abbrev envelope_of_bot : CapabilityEnvelope
envelope_of_bot = record {
  granted_capabilities =
      claim_grant main_policy bot acme no_delete "delete"
      ∷ delegated_grant main_policy bot acme (delegation_to "bot") "publish"
      ∷ [];
}

evaluate_with_delegations_iff_example :
    ByClaim none main_policy bot "publish"
    ⊎ ByDelegation bot acme (delegation_to "bot" ∷ []) (pos 20) "publish"
unfolding evaluate_with_delegations PrincipalKind-discrete Option-discrete AgentState-discrete
    String-discrete is_valid_at DelegationStatus-discrete condition_matches evaluate_condition
    claim_grant lookup allows delegated_grant
evaluate_with_delegations_iff_example =
    (evaluate_with_delegations_iff none main_policy bot acme (delegation_to "bot" ∷ []) (pos 20)
        "publish" envelope_of_bot refl refl).0
      refl

evaluate_capability_iff_example :
    Admits main_policy bot acme
    × Holds none main_policy bot acme "publish" (some (delegation_to "bot")) (pos 20)
unfolding evaluate_capability is_allowed String-discrete PrincipalKind-discrete is_valid_at
    DelegationStatus-discrete
evaluate_capability_iff_example =
    (evaluate_capability_iff none main_policy bot acme (some (delegation_to "bot")) "publish"
        (pos 20)).0
      refl

among : (d : Delegation) → some (delegation_to "bot") ≡ some d → In d (delegation_to "bot" ∷ [])
among d e = inl (ground arith)

evaluate_capability-allows_example : allows envelope_of_bot "publish" ≡ true
unfolding evaluate_capability evaluate_with_delegations String-discrete PrincipalKind-discrete
    Option-discrete AgentState-discrete is_valid_at DelegationStatus-discrete condition_matches
    evaluate_condition lookup is_allowed
evaluate_capability-allows_example =
    evaluate_capability-allows none main_policy bot acme (some (delegation_to "bot"))
      (delegation_to "bot" ∷ []) "publish" (pos 20) envelope_of_bot among refl refl

abbrev delete : AuthorizationRequest
delete = request_of "alice" "delete" document

abbrev envelope_of_alice : CapabilityEnvelope
envelope_of_alice = record {
  granted_capabilities =
      claim_grant main_policy alice acme no_delete "delete"
      ∷ claim_grant main_policy alice acme edit "edit"
      ∷ [];
}

deny_rule_gap_example :
    (denial_reason (
        evaluate_authorization_request none
          (some main_policy)
          (some alice)
          (some acme)
          none
          delete
          none
          (pos 20))
      ≡ some policy_denied)
    × (is_allowed (
          evaluate_capability none
            (some main_policy)
            (some alice)
            (some acme)
            none
            "delete"
            (pos 20))
        ≡ true)
    × (allows envelope_of_alice "delete" ≡ true)
unfolding evaluate_with_delegations resource_tenant rule_applies String-discrete evaluate_condition
    PrincipalKind-discrete condition_matches Option-discrete lookup ClaimValue-discrete
deny_rule_gap_example =
    deny_rule_gap none main_policy alice acme none delete (pos 20) no_delete (edit ∷ [])
      envelope_of_alice
      (record {
        own_request = refl;
        own_tenant = refl;
        requested_tenant = refl;
        own_policy = refl;
        resource_in_tenant = refl;
        active_agent = λ e. cc;
      })
      refl refl refl refl refl

abbrev envelope_of_mailer : CapabilityEnvelope
envelope_of_mailer = record {
  granted_capabilities =
      claim_grant main_policy mailer acme no_delete "delete"
      ∷ delegated_grant main_policy mailer acme (delegation_to "mailer") "publish"
      ∷ [];
}

unclaimed : ¬ ByClaim none main_policy mailer "publish"
unfolding String-discrete
unclaimed b = elim b.listed [
  | inl e ↦ ne_of_== no_delete.capability "publish" refl (ap (λ r. r.capability) e ∙ b.covers)
  | inr (inl e) ↦ ne_of_== edit.capability "publish" refl (ap (λ r. r.capability) e ∙ b.covers)
  | inr (inr e) ↦ e
]

service_delegation_gap_example :
    (allows envelope_of_mailer "publish" ≡ true)
    × (denial_reason (
          evaluate_capability none
            (some main_policy)
            (some mailer)
            (some acme)
            (some (delegation_to "mailer"))
            "publish"
            (pos 20))
        ≡ some capability_not_granted)
unfolding evaluate_with_delegations is_valid_at DelegationStatus-discrete String-discrete
    PrincipalKind-discrete condition_matches evaluate_condition claim_grant Option-discrete lookup
service_delegation_gap_example =
    service_delegation_gap none main_policy mailer acme (delegation_to "mailer") "publish" (pos 20)
      envelope_of_mailer refl
      (record { own_tenant = refl; own_delegate = refl; valid = refl; covers = inl refl }) unclaimed
      refl
