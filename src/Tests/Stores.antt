-- ===== src/Tests/Stores.antt =====
-- Histories of the stores.
use Invariant.{step, run}
use multi.Prelude.{
  ℕ, zero, suc, ◌<◌, String, String-discrete, ◌<>◌, false, ne_of_==, string_eq, none, some, List,
  [], ◌∷◌, ◌≡◌, ◌≢◌, refl, pos, In, lookup, ok, err, is_ok, arith, if◌then◌else◌, leb_ℤ, insert,
}
use multi.Contract.Ids.{SessionId}
use multi.Contract.Delegation.{Delegation, is_valid_at}
use multi.Storage.Delegations.{create_delegation, get_delegation, revoke_delegation}
use multi.Storage.Delegations.Invariant
use multi.Storage.Delegations.Invariant.{
  IsWellFormed, run-IsWellFormed, empty-IsWellFormed, listed, list_delegations_for_delegate_iff,
}
use multi.Storage.Delegations.Revocation.{revoke_delegation-permanent}
use multi.Storage.Principals.{
  Store, ExternalKey-discrete, ExternalBinding, resolve_external_identity, bind_external_identity,
}
use multi.Storage.Principals.Bindings
use multi.Storage.Principals.Bindings.{
  resolve_external_identity-run, bind_external_identity-resolves,
}
use multi.Storage.Sessions
use multi.Storage.Sessions.{Session, create_session, revoke_session, validate_session}
use multi.Storage.Sessions.Revocation
use multi.Storage.Sessions.Revocation.{create_session-validate, revoke_session-permanent}
use multi.Storage.Identities
use multi.Storage.Identities.{find_identity, link_account, new_identity, identity_id}
use multi.Storage.Identities.Collision.{linked, find_identity-overwritten}
use multi.Tests.Data.{acme, other_tenant, alice, bot, delegation_to}

abbrev calls : List Invariant.Call
calls =
    Invariant.create (delegation_to "bot")
    ∷ Invariant.create (delegation_to "alice")
    ∷ Invariant.revoke acme "g1" (pos 30)
    ∷ Invariant.create (delegation_to "bot")
    ∷ []

run-IsWellFormed_example : IsWellFormed (Invariant.run [] calls)
run-IsWellFormed_example = run-IsWellFormed [] calls empty-IsWellFormed

abbrev one_delegation : List (String × Delegation)
one_delegation = ("g1", delegation_to "bot") ∷ []

one_delegation-IsWellFormed : IsWellFormed one_delegation
unfolding run step create_delegation String-discrete lookup insert
one_delegation-IsWellFormed =
    run-IsWellFormed [] (Invariant.create (delegation_to "bot") ∷ []) empty-IsWellFormed

list_delegations_for_delegate_iff_example :
    In (delegation_to "bot") (listed one_delegation acme "bot")
unfolding lookup String-discrete
list_delegations_for_delegate_iff_example =
    (list_delegations_for_delegate_iff one_delegation acme "bot" (delegation_to "bot")
        one_delegation-IsWellFormed).1
      (refl, refl, refl)

revoke_delegation-permanent_example :
    is_valid_at (record (delegation_to "bot") { revoked_at = some (pos 30) }) (pos 20) ≡ false
unfolding revoke_delegation get_delegation run lookup String-discrete step create_delegation insert
revoke_delegation-permanent_example =
    revoke_delegation-permanent one_delegation acme acme "g1" (pos 30)
      (Invariant.create (delegation_to "bot") ∷ [])
      (record (delegation_to "bot") { revoked_at = some (pos 30) }) (pos 20) refl refl

abbrev mint : ℕ → SessionId
mint zero = "s0"
mint (suc zero) = "s1"
mint (suc (suc n)) = "s2"

abbrev sessions : Sessions.Store
sessions = record {
  sessions =
      (
        "s1",
        record {
          id = "s1";
          identity_id = "i1";
          tenant_id = "acme";
          created_at = pos 0;
          expires_at = pos 90;
          revoked_at = none;
        },
      )
      ∷ [];
  next_id = 1;
}

create_session-validate_example :
    let (t, session) = create_session mint sessions acme "i1" (pos 90) in
    validate_session t acme session.id (pos 20)
    ≡ (if leb_ℤ (pos 90) (pos 20) then err "expired session" else ok session)
create_session-validate_example = create_session-validate mint sessions acme "i1" (pos 90) (pos 20)

s1_is_past : (n : ℕ) → 1 < n → mint n ≢ "s1"
unfolding String-discrete
s1_is_past zero h e = omega arith
s1_is_past (suc zero) h e = omega arith
s1_is_past (suc (suc n)) h e = ne_of_== (mint (suc (suc n))) "s1" refl e

revoke_session-permanent_example :
    is_ok (
      validate_session
        (Revocation.run mint
          (revoke_session sessions acme "s1" (pos 30)).0
          (Revocation.create acme "i1" (pos 90) ∷ []))
        acme
        "s1"
        (pos 20))
    ≡ false
unfolding revoke_session lookup String-discrete
revoke_session-permanent_example =
    revoke_session-permanent mint sessions acme acme "s1" (pos 30) (pos 20)
      (Revocation.create acme "i1" (pos 90) ∷ []) s1_is_past (omega arith) refl

abbrev binding : ExternalBinding
binding = record {
  tenant_id = "acme";
  connector = "google";
  external_subject = "x";
  principal_id = "alice";
  linked_at = pos 3;
}

abbrev bound : Store
bound = record {
  principals = ("alice", alice) ∷ ("bot", bot) ∷ [];
  bindings = (record { tenant = "acme"; connector = "google"; subject = "x" }, binding) ∷ [];
}

resolve_external_identity-run_example :
    resolve_external_identity
      (Bindings.run bound (Bindings.bind acme "google" "x" "bot" (pos 7) ∷ []))
      acme
      "google"
      "x"
    ≡ some "alice"
unfolding resolve_external_identity lookup ExternalKey-discrete String-discrete
resolve_external_identity-run_example =
    resolve_external_identity-run bound (Bindings.bind acme "google" "x" "bot" (pos 7) ∷ []) acme
      "google" "x" "alice" refl

bind_external_identity-resolves_example :
    (binding.principal_id ≡ "alice")
    × (resolve_external_identity
          (Bindings.run
            (bind_external_identity
              (record bound { bindings = [] })
              acme
              "google"
              "x"
              "alice"
              (pos 3)).0
            (Bindings.bind acme "google" "x" "bot" (pos 7) ∷ []))
          acme
          "google"
          "x"
        ≡ some "alice")
unfolding bind_external_identity lookup String-discrete
bind_external_identity-resolves_example =
    bind_external_identity-resolves (record bound { bindings = [] }) acme "google" "x" "alice"
      (pos 3) binding (Bindings.bind acme "google" "x" "bot" (pos 7) ∷ []) refl

abbrev no_identities : Identities.Store
no_identities = record { identities = []; by_provider = [] }

find_identity-overwritten_example :
    find_identity
      (linked (linked no_identities acme "p" ("q" <> ":" <> "t")) other_tenant "q" "t")
      acme
      "p"
      ("q" <> ":" <> "t")
    ≡ err "tenant mismatch"
unfolding String-discrete link_account lookup insert ExternalKey-discrete
find_identity-overwritten_example =
    find_identity-overwritten no_identities acme other_tenant "p" "q" "t" refl refl refl refl
