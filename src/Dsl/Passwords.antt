-- ===== src/Dsl/Passwords.antt =====
-- crates/dsl/src/model.rs, `PasswordPolicy` and its validation.
use multi.Prelude.{ℕ, String, Bool, false, true, Option, none, ltb, Result, ok, err, if◌then◌else◌}

pub record PasswordPolicy : Type 0 where
  pub min_length : ℕ
  pub max_length : ℕ
  pub require_uppercase : Bool
  pub require_lowercase : Bool
  pub require_number : Bool
  pub require_special_character : Bool
  pub password_expiration_days : Option ℕ
  pub password_history_count : ℕ
  pub allow_password_change : Bool
  pub allow_password_reset : Bool

-- `impl Default`
unfoldable pub default_policy : PasswordPolicy
default_policy = record {
  min_length = 12;
  max_length = 128;
  require_uppercase = false;
  require_lowercase = false;
  require_number = false;
  require_special_character = false;
  password_expiration_days = none;
  password_history_count = 5;
  allow_password_change = true;
  allow_password_reset = true;
}

unfoldable pub validate : PasswordPolicy → Result String (Unit {0})
validate p =
    if ltb p.min_length 1
    then err "password min_length must be at least 1"
    else if ltb p.max_length p.min_length
    then err "password max_length must be greater than or equal to min_length"
    else ok tt
