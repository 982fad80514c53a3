-- ===== src/Tests/Boundary.antt =====
-- Changes of the live authority, and a challenge of a recovery.
use multi.Prelude.{
  String, show_ℕ, string_eq, String-discrete, sym, ap, ◌+◌, arith, some, none, List, [], ◌∷◌, ◌≡◌,
  refl, false, pos, ok, err, insert, lookup,
}
use multi.Boundary.Control.{
  LiveAuthorityState, ChangeRecord, initial, protect_route, set_provider_enabled, post,
  apply_change, apply_revert_change,
}
use multi.Boundary.Control.Reverting.{apply_all, apply_revert_change-apply_all}
use multi.Boundary.Control.{AuthorityChange, preview_of, revert}
use multi.Boundary.Proposals.{
  StoredProposal, explicit, approved, ProposalStatus-discrete, preview_authority_change,
}
use multi.Boundary.Applying.{AuthPortRuntime, Readings, Approval, apply_stored_proposal}
use multi.Boundary.Applying.Applied.{apply_stored_proposal-revert}
use multi.Boundary.Challenges.{
  CeremonyKind-discrete, Store, Operation, password_reset, issue, consume_with,
}
use multi.Boundary.Challenges.Once.{Call, consumes, revokes, issues, run, consume_with-once}

abbrev protected : LiveAuthorityState
protected = record initial {
  route_protection =
      (record { method = post; path = "/invoices" }, record { capability = some "invoice.create" })
      ∷ [];
  revision = 1;
}

abbrev without_local : LiveAuthorityState
without_local = record protected {
  provider_state = ("local", record { enabled = false }) ∷ [];
  revision = 2;
}

abbrev first_change : ChangeRecord
first_change = record {
  change_id = "change-1";
  proposal_id = "proposal-1";
  change = protect_route post "/invoices" "invoice.create";
  previous_state = initial;
  resulting_state = protected;
  applied_at = pos 10;
  applied_by = some "alice";
  reverted_change_id = none;
}

-- The provider that was disabled after the change is enabled again.
apply_revert_change-apply_all_example :
    apply_revert_change without_local "change-1" first_change ≡ ok (record initial { revision = 3 })
unfolding apply_change initial apply_all insert
apply_revert_change-apply_all_example =
    apply_revert_change-apply_all initial protected without_local
      (protect_route post "/invoices" "invoice.create") (set_provider_enabled "local" false ∷ [])
      first_change refl refl refl refl (omega arith)

abbrev digest : String → String
digest token = token

abbrev set_password : Operation (List String)
set_password tenant account changes = (account ∷ changes, ok tt)

abbrev issued : Store
issued = issue digest [] "secret" password_reset "acme" "alice" (pos 100)

abbrev afterwards : List (Call (List String))
afterwards =
    issues "other" password_reset "acme" "bob" (pos 200)
    ∷ consumes "other" password_reset (pos 60) set_password
    ∷ revokes "other"
    ∷ []

abbrev used : Store × List String
used = (consume_with digest issued [] "secret" password_reset (pos 50) set_password).0

consume_with-once_example :
    consume_with digest
      (run digest used afterwards).0
      (run digest used afterwards).1
      "secret"
      password_reset
      (pos 70)
      set_password
    ≡ (run digest used afterwards, err "invalid or expired recovery challenge")
unfolding issue consume_with run lookup insert String-discrete CeremonyKind-discrete
consume_with-once_example =
    consume_with-once digest issued [] "secret" password_reset password_reset (pos 50) (pos 70)
      set_password set_password afterwards refl (refl, (tt, (tt, tt)))

abbrev token_of : AuthorityChange → String
token_of change = "token"

abbrev proposed : StoredProposal
proposed = record {
  id = "proposal-1";
  change = protect_route post "/invoices" "invoice.create";
  preview = record { before = preview_of initial; after = preview_of protected };
  revision = 0;
  contract_fingerprint = "f";
  discovery_revision = 0;
  source = explicit;
  status = approved;
  created_at = pos 5;
  applied_at = none;
  change_id = none;
  rejection_reason = none;
}

abbrev runtime : AuthPortRuntime
runtime = record {
  authority = initial;
  proposals = record { proposals = ("proposal-1", proposed) ∷ []; changes = []; next_id = 2 };
  fingerprint = "f";
}

abbrev clock : Readings
clock = record { millis = 7; marked_at = pos 8; applied_at = pos 9 }

abbrev approval : Approval
approval = record { token = "dev-approval-token" }

abbrev changed : AuthPortRuntime
changed = (apply_stored_proposal token_of runtime "proposal-1" approval clock).0

apply_stored_proposal-revert_example :
    (1 ≡ runtime.authority.revision + 1)
    × (preview_authority_change changed.proposals changed.authority (revert "change-7-rev1")
        ≡ ok (record (runtime.authority) { revision = 2 }))
    × (apply_stored_proposal token_of changed "proposal-1" approval clock
        ≡ (changed, err "proposal `proposal-1` is not approved"))
unfolding initial lookup insert apply_stored_proposal String-discrete ProposalStatus-discrete show_ℕ
apply_stored_proposal-revert_example =
    apply_stored_proposal-revert token_of runtime changed "proposal-1" "change-7-rev1" approval
      approval clock clock 1 keyed (omega arith) refl
  where
    keyed :
        (p : StoredProposal)
        → lookup "proposal-1" runtime.proposals.proposals ≡ some p
        → p.id ≡ "proposal-1"
    keyed p found = let one : proposed ≡ p = cc found in sym (ap (λ q. q.id) one)
