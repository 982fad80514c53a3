-- ===== src/Contract/Principal.antt =====
-- crates/contract/src/principal.rs: humans, agents and services, and an agent's credential.
use multi.Prelude.{
  String, Bool, true, ◌&&◌, Option, none, some, Eq, ◌==◌, string_eq, option_eq, ℤ, ltb_ℤ,
}
use multi.Contract.Ids.{AgentCredentialId, AgentId, PrincipalId, TenantId}
use multi.Contract.Claims.{Claims, ContractVersion}

pub data PrincipalKind : Type 0 where
  human agent service : PrincipalKind

pub data AgentState : Type 0 where
  created active suspended revoked retired : AgentState

unfoldable pub PrincipalKind-discrete : Discrete PrincipalKind
PrincipalKind-discrete = hlevel

unfoldable pub AgentState-discrete : Discrete AgentState
AgentState-discrete = hlevel

instance abbrev pub principal_kind_eq : Eq PrincipalKind
principal_kind_eq = record { dec = PrincipalKind-discrete }

instance abbrev pub agent_state_eq : Eq AgentState
agent_state_eq = record { dec = AgentState-discrete }

pub record Agent : Type 0 where
  pub id : AgentId
  pub principal_id : PrincipalId
  pub tenant_id : TenantId
  pub name : String
  pub status : AgentState
  pub created_by : PrincipalId
  pub created_at : ℤ

pub record Principal : Type 0 where
  pub id : PrincipalId
  pub kind : PrincipalKind
  pub tenant_id : TenantId
  pub claims : Claims
  pub version : ContractVersion
  pub agent_state : Option AgentState

unfoldable pub new_human : PrincipalId → TenantId → Claims → ContractVersion → Principal
new_human id tenant_id claims version = record {
  id = id;
  kind = human;
  tenant_id = tenant_id;
  claims = claims;
  version = version;
  agent_state = none;
}

unfoldable pub new_agent :
    PrincipalId → TenantId → Claims → ContractVersion → AgentState → Principal
new_agent id tenant_id claims version state = record {
  id = id;
  kind = agent;
  tenant_id = tenant_id;
  claims = claims;
  version = version;
  agent_state = some state;
}

unfoldable pub new_service : PrincipalId → TenantId → Claims → ContractVersion → Principal
new_service id tenant_id claims version = record {
  id = id;
  kind = service;
  tenant_id = tenant_id;
  claims = claims;
  version = version;
  agent_state = none;
}

pub record AgentCredential : Type 0 where
  pub id : AgentCredentialId
  pub agent : PrincipalId
  pub tenant_id : TenantId
  pub secret_hash : String
  pub created_at : ℤ
  pub revoked_at : Option ℤ

-- `revoked_at.map(|revoked_at| now < revoked_at).unwrap_or(true)`
unfoldable pub not_yet_revoked : Option ℤ → ℤ → Bool
not_yet_revoked none now = true
not_yet_revoked (some revoked_at) now = ltb_ℤ now revoked_at

unfoldable pub credential_is_valid_at : AgentCredential → Principal → ℤ → Bool
unfolding not_yet_revoked
credential_is_valid_at c p now =
    p.kind == agent
    && p.tenant_id == c.tenant_id
    && p.id == c.agent
    && p.agent_state == some active
    && not_yet_revoked c.revoked_at now
