-- ===== src/Tests/Mesh.antt =====
-- A mesh with its in-memory stores and log: questions, a sign-up, and an agent that is suspended.
use multi.Authz.Condition.{evaluate_condition}
use Principal.{PrincipalKind-discrete}
use multi.Authz.Evaluator.CapabilityCheck.{evaluate_capability}
use multi.Storage.Delegations.{list_delegations_for_delegate}
use multi.Runtime.Policies.{policy_for}
use multi.Prelude.{
  Option-discrete, String-discrete, lookup, ℕ, ◌≤◌, length, ◌<>◌, none, some, List, [], ◌∷◌, ◌≡◌,
  refl, true, ℤ, pos, show_ℕ, ok, arith,
}
use multi.Contract.Claims.{ClaimValue-discrete, Identity}
use multi.Contract.Principal
use multi.Authz.Decision.{is_allowed}
use multi.Dsl.Model.{AuthConfig, string}
use multi.Providers.Connector.{AuthConnector}
use multi.Storage.Audit
use multi.Storage.Audit.{record_event}
use multi.Storage.Principals.{key_of}
use multi.Runtime.Auditing.{AuditRecord}
use multi.Runtime.Auditing.Interleaving.{Write, Watched}
use multi.Runtime.Authorizing.Granting.{Granted, Question, use_capability, ask, ask-Granted}
use multi.Runtime.Authorizing.Remembered.{converse, converse-bounded}
use multi.Runtime.Mesh.{policy, AuthMesh, Host}
use multi.Runtime.Running.{RuntimeContext}
use multi.Runtime.Stores.{delegations_for, MeshStores}
use multi.Tests.Data.{acme, alice, bot, editor_claims, main_policy, delegation_to}

abbrev pub in_memory : Host Audit.Store
in_memory = record { clock = none; mint = λ n. "session_" <> show_ℕ n; record_event = record_event }

abbrev local : AuthConnector
local = record {
  id = "local";
  authenticate = λ response. ok (record { connector = "local"; subject = "dora"; attributes = [] });
}

abbrev pub declared : AuthConfig
declared = record {
  providers = "local" ∷ [];
  claims = record { name = "role"; kind = string } ∷ [];
  agents = true;
  policies = [];
  fingerprint = "f00d";
}

abbrev pub identity_of_bot : Identity
identity_of_bot = record {
  id = "acme:local:bot";
  provider = "local";
  provider_subject = "bot";
  tenant_id = "acme";
  claims = record { values = [] };
  version = record { major = 1; minor = 0 };
  offline = record { max_age_seconds = 300; must_revalidate = true };
}

abbrev pub stores : MeshStores
stores = record {
  tenants = ("acme", acme) ∷ [];
  identities = record {
    identities = ("acme:local:bot", identity_of_bot) ∷ [];
    by_provider = (key_of acme "local" "bot", "acme:local:bot") ∷ [];
  };
  principals = record {
    principals = ("alice", alice) ∷ ("bot", bot) ∷ [];
    bindings =
        (
          key_of acme "local" "bot",
          record {
            tenant_id = "acme";
            connector = "local";
            external_subject = "bot";
            principal_id = "bot";
            linked_at = pos 1;
          },
        )
        ∷ [];
  };
  sessions = record { sessions = []; next_id = 0 };
  delegations = ("g1", delegation_to "bot") ∷ [];
  runs = [];
  policies = ("main", main_policy) ∷ [];
}

abbrev pub mesh : AuthMesh Audit.Store
mesh = record {
  config = declared;
  registry = ("local", local) ∷ [];
  stores = stores;
  audit = [];
  session_ttl = pos 3600;
  audit_sequence = 0;
  run_sequence = 0;
  decisions = [];
}

abbrev pub context_of_alice : RuntimeContext
context_of_alice = record {
  principal = alice;
  tenant = acme;
  session_id = some "s1";
  delegation = none;
  run = none;
  claims = editor_claims;
  capabilities = record { granted_capabilities = [] };
}

abbrev questions : List (RuntimeContext × Question × ℤ × ℕ)
questions =
    (context_of_alice, use_capability "edit", pos 20, 1)
    ∷ (context_of_alice, use_capability "publish", pos 21, 1)
    ∷ []

ask-Granted_example :
    Granted in_memory context_of_alice
      (use_capability "edit")
      (pos 20)
      1
      mesh
      (ask in_memory context_of_alice (use_capability "edit") (pos 20) 1 mesh).0
      (ask in_memory context_of_alice (use_capability "edit") (pos 20) 1 mesh).1
unfolding is_allowed ask policy policy_for lookup String-discrete delegations_for
    list_delegations_for_delegate record_event evaluate_capability PrincipalKind-discrete
    evaluate_condition Option-discrete ClaimValue-discrete
ask-Granted_example =
    ask-Granted in_memory context_of_alice (use_capability "edit") (pos 20) 1 mesh refl

converse-bounded_example :
    (length (converse in_memory questions mesh).decisions ≤ 100)
    × ((converse in_memory questions mesh).stores ≡ stores)
    × ((converse in_memory questions mesh).config ≡ declared)
converse-bounded_example = converse-bounded in_memory questions mesh (omega arith)

abbrev logged_out : AuditRecord
logged_out = record {
  kind = Audit.logout;
  principal_id = none;
  session_id = none;
  delegation_id = none;
  metadata = [];
}

abbrev watched_mesh : Watched in_memory
watched_mesh = record {
  config = mesh.config;
  registry = mesh.registry;
  stores = mesh.stores;
  audit = ([], mesh.audit);
  session_ttl = mesh.session_ttl;
  audit_sequence = mesh.audit_sequence;
  run_sequence = mesh.run_sequence;
  decisions = mesh.decisions;
}

abbrev own_write : Write
own_write = record { tenant = acme; entry = logged_out; at = pos 5 }

abbrev other_write : Write
other_write = record {
  tenant = acme;
  entry = record logged_out { principal_id = some "bob" };
  at = pos 6;
}
