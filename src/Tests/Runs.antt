-- ===== src/Tests/Runs.antt =====
-- Delegations that are passed on, and runs.
use multi.Authz.Condition.{evaluate_condition, condition_matches}
use multi.Authz.Decision.{CapabilityEnvelope, is_allowed, allows}
use multi.Authz.Evaluator.{
  resource_fits, claim_grant, delegated_grant, delegation_scope_matches, evaluate_with_delegations,
}
use multi.Authz.Evaluator.CapabilityCheck.{evaluate_capability}
use multi.Contract.Claims.{ClaimValue-discrete}
use multi.Contract.Delegation.{DelegationStatus-discrete, Delegation, is_valid_at}
use multi.Contract.Ids.{ExecutionCredentialId, RunId}
use multi.Contract.Principal.{AgentState-discrete, PrincipalKind-discrete, Principal}
use multi.Contract.Run.{AgentRun}
use multi.Contract.Scope.{is_subset_of, is_unconstrained, ResourceScope}
use multi.Contract.Tenant.{TenantContext}
use multi.Prelude.{
  String, String-discrete, Option-discrete, ◌<>◌, none, some, [], ◌∷◌, ◌≡◌, refl, ap, sym, ◌↔◌, inl,
  inr, In, true, pos, ok, lookup,
}
use multi.Runtime.Delegating.{DelegationRequest, new_delegation, delegation_of_request}
use multi.Runtime.Delegating.Scopes.{delegation_of_request-narrows, delegation_of_request-unbounded}
use multi.Runtime.Picking.{pick_delegation, pick_delegation-allows}
use multi.Runtime.Running.{
  resource_scope_matches, RunCreationRequest, RuntimeContext, new_run, run_of_request, checked_run,
  checked_run_for_request,
}
use multi.Runtime.Running.Narrowing.{
  RestsOn, IsWithin, run_of_request-RestsOn, run_of_request-parent, checked_run_for_request-within,
}
use multi.Runtime.Stores.{
  assert_principal_is_usable, agent_run, MeshStores, principal, delegations_for,
}
use multi.Storage.Delegations.{get_delegation, list_delegations_for_delegate}
use multi.Storage.Principals.{get_principal}
use multi.Storage.Runs.{get_run}
use multi.Storage.Sorting.{sort_by}
use multi.Tests.Data.{
  acme, bot, mailer, no_delete, main_policy, anything, delegation_to, document, request_of,
}

abbrev envelope_of_bot : CapabilityEnvelope
envelope_of_bot = record {
  granted_capabilities =
      claim_grant main_policy bot acme no_delete "delete"
      ∷ delegated_grant main_policy bot acme (delegation_to "bot") "publish"
      ∷ [];
}

all_of_bot :
    (d : Delegation)
    → In d (delegation_to "bot" ∷ [])
    → (d.tenant_id ≡ acme.tenant_id) × (d.delegate ≡ bot.id)
all_of_bot d (inl e) = (ap (λ d. d.tenant_id) (sym e), ap (λ d. d.delegate) (sym e))
all_of_bot d (inr m) = absurd m

pick_delegation-allows_example :
    (is_allowed (
        evaluate_capability none
          (some main_policy)
          (some bot)
          (some acme)
          (pick_delegation (delegation_to "bot" ∷ []) "publish" (pos 20))
          "publish"
          (pos 20))
      ≡ true)
    ↔ (allows envelope_of_bot "publish" ≡ true)
unfolding evaluate_with_delegations String-discrete PrincipalKind-discrete Option-discrete
    AgentState-discrete is_valid_at DelegationStatus-discrete condition_matches evaluate_condition
    claim_grant lookup
pick_delegation-allows_example =
    pick_delegation-allows none main_policy bot acme (delegation_to "bot" ∷ []) "publish" (pos 20)
      envelope_of_bot refl refl all_of_bot refl

abbrev helper : Principal
helper = record bot { id = "helper" }

abbrev one_document_only : ResourceScope
one_document_only = record {
  resource_type = some "document";
  resource_id = some "d1";
  attributes = [];
}

abbrev run_request : RunCreationRequest
run_request = record {
  id = none;
  task_id = "t1";
  task_purpose = "publish a document";
  delegation_id = "g1";
  parent_run_id = some "r0";
  capabilities = "publish" ∷ [];
  resource_scope = one_document_only;
  expires_at = pos 50;
  constraints = [];
}

abbrev credential_of : TenantContext → RunId → ExecutionCredentialId
credential_of tenant id = tenant.tenant_id <> "|" <> id

abbrev run_with : RunId → RunCreationRequest → AgentRun
run_with id request =
    new_run credential_of id acme "bot" request (pos 20) 0 "" (delegation_to "bot")

abbrev mesh : MeshStores
mesh = record {
  tenants = ("acme", acme) ∷ [];
  identities = record { identities = []; by_provider = [] };
  sessions = record { sessions = []; next_id = 0 };
  policies = [];
  principals = record {
    principals = ("bot", bot) ∷ ("helper", helper) ∷ ("mailer", mailer) ∷ [];
    bindings = [];
  };
  delegations =
      ("g1", delegation_to "bot") ∷ ("g2", record (delegation_to "mailer") { id = "g2" }) ∷ [];
  runs =
      ("r0", run_with "r0" (record run_request { parent_run_id = none }))
      ∷ ("r1", run_with "r1" run_request)
      ∷ [];
}

abbrev pass_on : String → String → DelegationRequest
pass_on delegator delegate = record {
  id = "g3";
  delegator = delegator;
  delegate = delegate;
  capabilities = "publish" ∷ [];
  resource_scope = one_document_only;
  issued_at = pos 20;
  expires_at = some (pos 40);
}

bot_found : principal mesh acme "bot" ≡ ok bot
unfolding principal get_principal lookup String-discrete
bot_found = refl

mailer_found : principal mesh acme "mailer" ≡ ok mailer
unfolding principal get_principal lookup String-discrete
mailer_found = refl

held_by_bot : delegations_for mesh acme "bot" ≡ ok (delegation_to "bot" ∷ [])
unfolding delegations_for list_delegations_for_delegate sort_by String-discrete
held_by_bot = refl

bot_passes_on :
    delegation_of_request none true (ok main_policy) mesh acme (pass_on "bot" "helper") (pos 20)
    ≡ ok (new_delegation acme (pass_on "bot" "helper") ("g1" ∷ []))
unfolding principal get_principal lookup String-discrete delegations_for
    list_delegations_for_delegate sort_by delegation_of_request PrincipalKind-discrete
    assert_principal_is_usable evaluate_with_delegations Option-discrete AgentState-discrete allows
    is_valid_at DelegationStatus-discrete condition_matches evaluate_condition ClaimValue-discrete
    is_subset_of claim_grant delegated_grant
bot_passes_on = refl

mailer_passes_on :
    delegation_of_request none true (ok main_policy) mesh acme (pass_on "mailer" "bot") (pos 20)
    ≡ ok (new_delegation acme (pass_on "mailer" "bot") [])
unfolding principal get_principal lookup String-discrete delegations_for
    list_delegations_for_delegate sort_by delegation_of_request PrincipalKind-discrete
    assert_principal_is_usable evaluate_with_delegations Option-discrete AgentState-discrete allows
    is_valid_at DelegationStatus-discrete condition_matches evaluate_condition ClaimValue-discrete
    is_subset_of claim_grant delegated_grant
mailer_passes_on = refl

delegation_of_request-narrows_example :
    (parent : Delegation) × In parent (delegation_to "bot" ∷ [])
    × (is_valid_at parent (pos 20) ≡ true)
    × In "publish" parent.capabilities
    × (delegation_scope_matches parent.resource_scope (request_of "helper" "publish" document) none
        ≡ true)
unfolding delegation_scope_matches new_delegation is_unconstrained String-discrete
delegation_of_request-narrows_example =
    delegation_of_request-narrows none true (ok main_policy) mesh acme (pass_on "bot" "helper")
      (pos 20) (new_delegation acme (pass_on "bot" "helper") ("g1" ∷ [])) bot
      (delegation_to "bot" ∷ []) "publish" (request_of "helper" "publish" document) none bot_found
      refl held_by_bot bot_passes_on (inl refl) refl

delegation_of_request-unbounded_example :
    delegation_of_request none true
      (ok main_policy)
      mesh
      acme
      (record (pass_on "mailer" "bot") { resource_scope = anything; expires_at = none })
      (pos 20)
    ≡ ok (record (new_delegation acme (pass_on "mailer" "bot") []) {
      resource_scope = anything;
      expires_at = none;
    })
delegation_of_request-unbounded_example =
    delegation_of_request-unbounded none true (ok main_policy) mesh acme (pass_on "mailer" "bot")
      (pos 20) (new_delegation acme (pass_on "mailer" "bot") []) mailer anything mailer_found
      (λ e. cc) mailer_passes_on

granted :
    run_of_request credential_of "r1" mesh acme "bot" run_request (pos 20) 0 ""
    ≡ ok (run_with "r1" run_request)
unfolding run_of_request principal get_principal lookup String-discrete PrincipalKind-discrete
    assert_principal_is_usable get_delegation is_valid_at DelegationStatus-discrete is_subset_of
    Option-discrete agent_run get_run
granted = refl

run_of_request-RestsOn_example :
    (d : Delegation) × RestsOn mesh acme "bot" run_request (pos 20) (run_with "r1" run_request) d
run_of_request-RestsOn_example =
    run_of_request-RestsOn credential_of "r1" mesh acme "bot" run_request (pos 20) 0 ""
      (run_with "r1" run_request) granted

run_of_request-parent_example :
    (parent : AgentRun) × (checked_run mesh acme "r0" (pos 20) ≡ ok parent)
    × IsWithin
        (run_with "r1" run_request)
        parent.capability_scope
        parent.resource_scope
        (some parent.expires_at)
run_of_request-parent_example =
    run_of_request-parent credential_of "r1" mesh acme "bot" run_request (pos 20) 0 ""
      (run_with "r1" run_request) "r0" refl granted

abbrev context : RuntimeContext
context = record {
  principal = bot;
  tenant = acme;
  session_id = none;
  delegation = none;
  run = none;
  claims = bot.claims;
  capabilities = envelope_of_bot;
}

abbrev rests :
    (d : Delegation) × RestsOn mesh acme "bot" run_request (pos 20) (run_with "r1" run_request) d
rests =
    run_of_request-RestsOn credential_of "r1" mesh acme "bot" run_request (pos 20) 0 ""
      (run_with "r1" run_request) granted

checked_run_for_request-within_example :
    In "publish" rests.0.capabilities
    × (delegation_scope_matches rests.0.resource_scope (request_of "bot" "publish" document) none
        ≡ true)
unfolding checked_run_for_request checked_run agent_run get_run lookup String-discrete new_run
    resource_scope_matches is_unconstrained resource_fits
checked_run_for_request-within_example =
    checked_run_for_request-within mesh mesh acme "bot" run_request (pos 20) (pos 30)
      (run_with "r1" run_request) rests.0 context "r1" (request_of "bot" "publish" document) none
      rests.1 refl
