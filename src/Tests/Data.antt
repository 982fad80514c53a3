-- ===== src/Tests/Data.antt =====
-- A tenant with a policy, three principals, a delegation and a request.
use multi.Prelude.{String, none, some, [], ◌∷◌, pos}
use multi.Contract.Claims.{Claims, ContractVersion, string}
use multi.Contract.Scope.{ResourceScope}
use multi.Contract.Delegation.{Delegation}
use multi.Contract.Principal
use multi.Contract.Principal.{Principal, active}
use multi.Contract.Tenant.{TenantContext}
use multi.Authz.Policy.{
  Effect, Condition, Policy, Rule, ResourceRef, AuthorizationContext, AuthorizationRequest,
  claim_equals, always,
}

abbrev pub acme : TenantContext
acme = record {
  tenant_id = "acme";
  namespace = "acme";
  policy_id = "main";
  storage_root_id = "root";
}

abbrev pub other_tenant : TenantContext
other_tenant = record {
  tenant_id = "acme:p";
  namespace = "o";
  policy_id = "main";
  storage_root_id = "root";
}

abbrev pub first_version : ContractVersion
first_version = record { major = 1; minor = 0 }

abbrev pub editor_claims : Claims
editor_claims = record { values = ("role", string "editor") ∷ [] }

abbrev pub alice : Principal
alice = record {
  id = "alice";
  kind = Principal.human;
  tenant_id = "acme";
  claims = editor_claims;
  version = first_version;
  agent_state = none;
}

abbrev pub bot : Principal
bot = record {
  id = "bot";
  kind = Principal.agent;
  tenant_id = "acme";
  claims = record { values = [] };
  version = first_version;
  agent_state = some active;
}

abbrev pub mailer : Principal
mailer = record {
  id = "mailer";
  kind = Principal.service;
  tenant_id = "acme";
  claims = record { values = [] };
  version = first_version;
  agent_state = none;
}

abbrev pub is_editor : Condition
is_editor = claim_equals "role" (string "editor")

abbrev pub edit : Rule
edit = record {
  capability = "edit";
  condition = is_editor;
  resource = none;
  action = none;
  effect = Effect.allow;
}

abbrev pub no_delete : Rule
no_delete = record {
  capability = "delete";
  condition = always;
  resource = none;
  action = none;
  effect = Effect.deny;
}

abbrev pub main_policy : Policy
main_policy = record { id = "main"; rules = no_delete ∷ edit ∷ [] }

abbrev pub documents : ResourceScope
documents = record { resource_type = some "document"; resource_id = none; attributes = [] }

abbrev pub one_document : ResourceScope
one_document = record {
  resource_type = some "document";
  resource_id = some "d1";
  attributes = ("level", string "low") ∷ [];
}

abbrev pub anything : ResourceScope
anything = record { resource_type = none; resource_id = none; attributes = [] }

abbrev pub delegation_to : String → Delegation
delegation_to delegate = record {
  id = "g1";
  delegator = "alice";
  delegate = delegate;
  tenant_id = "acme";
  capabilities = "publish" ∷ [];
  resource_scope = documents;
  issued_at = pos 10;
  expires_at = some (pos 90);
  revoked_at = none;
  chain = [];
}

abbrev pub document : ResourceRef
document = record { resource_type = "document"; resource_id = "d1"; tenant_id = "acme" }

abbrev pub foreign_document : ResourceRef
foreign_document = record { resource_type = "document"; resource_id = "d1"; tenant_id = "rival" }

abbrev pub no_context : AuthorizationContext
no_context = record {
  values = [];
  run_id = none;
  task_id = none;
  agent_principal = none;
  delegation_id = none;
  delegation_chain = [];
}

abbrev pub request_of : String → String → ResourceRef → AuthorizationRequest
request_of principal capability resource = record {
  principal = principal;
  tenant = "acme";
  capability = capability;
  action = "write";
  resource = some resource;
  context = no_context;
}
