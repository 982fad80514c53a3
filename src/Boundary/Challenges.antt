-- ===== src/Boundary/Challenges.antt =====
-- crates/boundary/src/ceremony.rs, `ChallengeStore`. `digest` is SHA-256 of a token, and a token is
-- drawn at random outside the program. The operation that a challenge protects changes a state of
-- its own, and may fail.
pub mod Once
use multi.Prelude.{
  String, Bool, true, false, not, ◌||◌, Option, none, some, List, [], ◌∷◌, Dict, lookup, insert, Eq,
  ◌==◌, string_eq, if◌then◌else◌, ℤ, leb_ℤ, Result, ok, err,
}

pub data CeremonyKind : Type 0 where
  password_reset email_verification : CeremonyKind

unfoldable pub CeremonyKind-discrete : Discrete CeremonyKind
CeremonyKind-discrete = hlevel

instance abbrev pub ceremony_kind_eq : Eq CeremonyKind
ceremony_kind_eq = record { dec = CeremonyKind-discrete }

pub record Challenge : Type 0 where
  pub kind : CeremonyKind
  pub tenant : String
  pub account : String
  pub expires_at : ℤ
  pub consumed : Bool
  pub revoked : Bool

abbrev pub Store : Type 0
Store = Dict String Challenge

abbrev pub Operation : Type 0 → Type 0
Operation W = String → String → W → W × Result String (Unit {0})

unfoldable pub new_challenge : CeremonyKind → String → String → ℤ → Challenge
new_challenge kind tenant account expires_at = record {
  kind = kind;
  tenant = tenant;
  account = account;
  expires_at = expires_at;
  consumed = false;
  revoked = false;
}

unfoldable pub is_refused : Challenge → CeremonyKind → ℤ → Bool
is_refused c kind now = not (c.kind == kind) || c.revoked || c.consumed || leb_ℤ c.expires_at now

module _ (digest : String → String) where
  unfoldable pub issue : Store → String → CeremonyKind → String → String → ℤ → Store
  unfolding new_challenge
  issue s token kind tenant account expires_at =
      insert (digest token) (new_challenge kind tenant account expires_at) s

  module _ {W : Type 0} where
    -- `operation(..)?; entry.consumed = true;`
    settled :
        Store
        → String
        → Challenge
        → W × Result String (Unit {0})
        → (Store × W) × Result String (Unit {0})
    settled s token c (w, err e) = ((s, w), err e)
    settled s token c (w, ok t) =
        ((insert (digest token) (record c { consumed = true }) s, w), ok tt)

    consume_found :
        Store
        → W
        → String
        → CeremonyKind
        → ℤ
        → Operation W
        → Option Challenge
        → (Store × W) × Result String (Unit {0})
    unfolding settled is_refused
    consume_found s w token kind now operation none = ((s, w), err "invalid recovery challenge")
    consume_found s w token kind now operation (some c) =
        if is_refused c kind now
        then ((s, w), err "invalid or expired recovery challenge")
        else settled s token c (operation c.tenant c.account w)

    unfoldable pub consume_with :
        Store → W → String → CeremonyKind → ℤ → Operation W → (Store × W) × Result String (Unit {0})
    unfolding consume_found
    consume_with s w token kind now operation =
        consume_found s w token kind now operation (lookup (digest token) s)

  revoke_found : Store → String → Option Challenge → Store × Bool
  revoke_found s token none = (s, false)
  revoke_found s token (some c) = (insert (digest token) (record c { revoked = true }) s, true)

  unfoldable pub revoke : Store → String → Store × Bool
  unfolding revoke_found
  revoke s token = revoke_found s token (lookup (digest token) s)
