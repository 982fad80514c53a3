-- ===== src/Dsl/Model.antt =====
-- crates/dsl/src/model.rs: the part of a declaration that the mesh reads. The forms, the look, the
-- storage and the mail of a declaration are left out.
use multi.Prelude.{String, Bool, Option, List, any, find, ◌==◌, string_eq}

pub data ClaimKind : Type 0 where
  enum : List String → ClaimKind
  string integer boolean : ClaimKind

pub record ClaimDef : Type 0 where
  pub name : String
  pub kind : ClaimKind

pub record PolicyClaimCondition : Type 0 where
  pub claim : String
  pub values : List String

pub record PolicyDef : Type 0 where
  pub capability : String
  pub tenant_current : Bool
  pub resource : Option String
  pub action : Option String
  pub claims : List PolicyClaimCondition

-- `fingerprint` is what the method of that name returns.
pub record AuthConfig : Type 0 where
  pub providers : List String
  pub claims : List ClaimDef
  pub agents : Bool
  pub policies : List PolicyDef
  pub fingerprint : String

unfoldable pub claim : AuthConfig → String → Option ClaimDef
claim config name = find (λ c. c.name == name) config.claims

unfoldable pub declares_provider : AuthConfig → String → Bool
declares_provider config name = any (λ provider. provider == name) config.providers
