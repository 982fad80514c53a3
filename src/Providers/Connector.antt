-- ===== src/Providers/Connector.antt =====
-- crates/providers/src/connector.rs and registry.rs: what the mesh sees of connectors. The `begin` of
-- a connector, its passwords and its description are left out.
use multi.Prelude.{
  String, ◌<>◌, Option, Dict, lookup, insert, contains_key, string_eq, if◌then◌else◌, Result, ok,
  err, ok_or,
}

pub record AuthResponse : Type 0 where
  pub connector : String
  pub tenant : Option String
  pub state : String
  pub parameters : Dict String String

pub record ExternalIdentity : Type 0 where
  pub connector : String
  pub subject : String
  pub attributes : Dict String String

pub data ConnectorError : Type 0 where
  unknown_connector unsupported not_declared duplicate_connector invalid_credentials
        challenge_mismatch password_reused password_hashing_failed :
      String → ConnectorError
  invalid_request : String → String → ConnectorError

-- `impl Display`
unfoldable pub to_string : ConnectorError → String
to_string (unknown_connector c) = "unknown connector `" <> c <> "`"
to_string (unsupported c) = "connector `" <> c <> "` is declared but not implemented"
to_string (not_declared c) = "connector `" <> c <> "` is not declared by `use auth`"
to_string (duplicate_connector c) = "duplicate connector `" <> c <> "`"
to_string (invalid_request c message) = "connector `" <> c <> "`: " <> message
to_string (invalid_credentials c) = "connector `" <> c <> "`: invalid credentials"
to_string (challenge_mismatch c) = "connector `" <> c <> "`: challenge does not match response"
to_string (password_reused c) = "connector `" <> c <> "`: PASSWORD_REUSED"
to_string (password_hashing_failed c) = "connector `" <> c <> "`: password hashing failed"

-- What a connector does with a response at the time of the call.
pub record AuthConnector : Type 0 where
  pub id : String
  pub authenticate : AuthResponse → Result ConnectorError ExternalIdentity

abbrev pub ConnectorRegistry : Type 0
ConnectorRegistry = Dict String AuthConnector

unfoldable pub register :
    ConnectorRegistry → AuthConnector → ConnectorRegistry × Result ConnectorError (Unit {0})
register r connector =
    if contains_key connector.id r
    then (r, err (duplicate_connector connector.id))
    else (insert connector.id connector r, ok tt)

-- `ConnectorRegistry::get`
unfoldable pub connector_of : ConnectorRegistry → String → Result ConnectorError AuthConnector
connector_of r id = ok_or (lookup id r) (unknown_connector id)
