-- ===== src/Tests/Accounts.antt =====
-- A sign-up in the mesh, and an agent that is suspended there.
use multi.Storage.Identities.{get_identity}
use multi.Storage.Audit.{record_event}
use multi.Contract.Principal.{AgentState-discrete, PrincipalKind-discrete}
use multi.Storage.Principals
use multi.Storage.Principals.{ExternalKey-discrete, resolve_external_identity}
use multi.Storage.Tenants.{get_tenant}
use multi.Prelude.Blank.{trim, is_empty}
use multi.Prelude.{
  String-discrete, lookup, ◌<>◌, none, some, [], ◌∷◌, ◌≡◌, refl, true, false, pos, Result, ok, err,
  is_ok,
}
use multi.Contract.Ids.{ExecutionCredentialId, RunId}
use multi.Contract.Principal
use multi.Contract.Principal.{Principal, suspended}
use multi.Contract.Tenant.{TenantContext}
use multi.Providers.Connector.{AuthResponse}
use multi.Storage.Audit
use multi.Storage.Sessions.{Session}
use multi.Storage.Sorting.{sort_by}
use multi.Storage.Identities.{link_account, update_claims}
use multi.Storage.Principals.{get_principal}
use multi.Storage.Delegations.{list_delegations_for_delegate}
use multi.Dsl.Hash.{hash_of}
use multi.Runtime.Mesh.{policy}
use multi.Runtime.Policies.{policy_for}
use multi.Runtime.Stores.{delegations_for}
use multi.Runtime.Claims.{resolve_claims}
use multi.Authz.Evaluator.{evaluate_with_delegations, claim_grant}
use multi.Authz.Condition.{condition_matches, evaluate_condition}
use multi.Contract.Claims.{ClaimValue-discrete}
use multi.Prelude.{insert, Option-discrete, ℤ-discrete, ◌+ℤ◌}
use multi.Runtime.Calls.{set_agent_state}
use multi.Runtime.Calls.States.{set_agent_state-refused}
use multi.Runtime.Contexts.{context_for, principal_of_session, resolve_session}
use multi.Runtime.Contexts.Reading.{paired}
use multi.Runtime.Delegating.{DelegationRequest, delegation_of_request}
use multi.Runtime.Errors.{AuthError}
use multi.Runtime.Mesh.{AuthMesh, tenant}
use multi.Runtime.Running.{RunCreationRequest, run_of_request}
use multi.Runtime.Signing.{AuthenticatedSession, Registration, sign_up}
use multi.Runtime.Signing.Readmitted.{resolve_session-sign_up}
use multi.Runtime.Stores.{MeshStores}
use multi.Tests.Data.{acme, anything, main_policy}
use multi.Tests.Mesh.{in_memory, mesh, stores, context_of_alice, identity_of_bot, declared}

abbrev answer_of_dora : AuthResponse
answer_of_dora = record { connector = "local"; tenant = some "acme"; state = ""; parameters = [] }

abbrev as_editor : Registration
as_editor = record { kind = Principal.human; claims = ("role", "editor") ∷ [] }

abbrev signed_up : AuthMesh Audit.Store × Result AuthError AuthenticatedSession
signed_up = sign_up in_memory "acme" answer_of_dora as_editor (pos 20) mesh

-- Another value stands in where nobody signed up.
abbrev given : AuthenticatedSession
given = elim signed_up.1 [
  | ok session ↦ session
  | err e ↦ record {
    session = record {
      id = "";
      identity_id = "";
      tenant_id = "";
      created_at = pos 0;
      expires_at = pos 0;
      revoked_at = none;
    };
    external = record { connector = ""; subject = ""; attributes = [] };
    context = context_of_alice;
  }
]

resolve_session-sign_up_example :
    (t : TenantContext) × (p : Principal) × (tenant stores "acme" ≡ ok t)
    × (p.kind ≡ Principal.human)
    × (p.tenant_id ≡ t.tenant_id)
    × (context_for none declared signed_up.0.stores t p (some given.session.id) (pos 20)
        ≡ ok given.context)
    × (resolve_session none declared signed_up.0.stores "acme" given.session.id (pos 30)
        ≡ paired given.session
            (context_for none declared signed_up.0.stores t p (some given.session.id) (pos 30)))
unfolding sign_up tenant is_empty trim get_tenant lookup String-discrete PrincipalKind-discrete
    sort_by resolve_external_identity ExternalKey-discrete link_account update_claims insert
    Principals.put_principal Principals.bind_external_identity hash_of record_event policy
    policy_for delegations_for list_delegations_for_delegate evaluate_with_delegations
    condition_matches claim_grant Option-discrete ClaimValue-discrete evaluate_condition
    AgentState-discrete ℤ-discrete ◌+ℤ◌ get_identity get_principal context_for resolve_claims
resolve_session-sign_up_example =
    resolve_session-sign_up in_memory answer_of_dora as_editor (pos 20) "acme" mesh given (pos 30)
      refl refl

abbrev session_of_bot : Session
session_of_bot = record {
  id = "s7";
  identity_id = "acme:local:bot";
  tenant_id = "acme";
  created_at = pos 0;
  expires_at = pos 900;
  revoked_at = none;
}

abbrev task : RunCreationRequest
task = record {
  id = none;
  task_id = "t1";
  task_purpose = "publish";
  delegation_id = "g1";
  parent_run_id = none;
  capabilities = "publish" ∷ [];
  resource_scope = anything;
  expires_at = pos 50;
  constraints = [];
}

abbrev to_alice : DelegationRequest
to_alice = record {
  id = "g9";
  delegator = "alice";
  delegate = "alice";
  capabilities = "edit" ∷ [];
  resource_scope = anything;
  issued_at = pos 20;
  expires_at = none;
}

abbrev credential : TenantContext → RunId → ExecutionCredentialId
credential tenant id = tenant.tenant_id <> "|" <> id

abbrev after_suspension : MeshStores
after_suspension = (set_agent_state in_memory "acme" "bot" suspended (pos 20) mesh).0.stores

set_agent_state-refused_example :
    (is_ok (principal_of_session after_suspension acme session_of_bot) ≡ false)
    × (is_ok (run_of_request credential "r1" after_suspension acme "bot" task (pos 21) 1 "f00d")
        ≡ false)
    × (is_ok (
          delegation_of_request none true
            (ok main_policy)
            after_suspension
            acme
            (record to_alice { delegate = "bot" })
            (pos 21))
        ≡ false)
unfolding tenant is_empty trim get_tenant lookup String-discrete set_agent_state
    Principals.set_agent_state PrincipalKind-discrete record_event AgentState-discrete get_identity
    resolve_external_identity ExternalKey-discrete
set_agent_state-refused_example =
    set_agent_state-refused in_memory "bot" suspended (pos 20) "acme" mesh acme session_of_bot
      identity_of_bot credential "r1" task (pos 21) 1 "f00d" true (ok main_policy) to_alice refl
      refl refl refl refl
