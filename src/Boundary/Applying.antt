-- ===== src/Boundary/Applying.antt =====
-- crates/boundary/src/runtime.rs: approving and applying stored proposals, with the `Approval` of
-- control.rs. `token_of` gives the token of a change, which a hasher of Rust's library computes. The
-- clock is read three times in a call: for the id of the change, the proposal and the record.
pub mod Applied
use multi.Prelude.{
  ℕ, ltb, String, ◌<>◌, Bool, not, ◌||◌, Option, none, some, ◌==◌, string_eq, lookup, ℤ, show_ℕ,
  Result, ok, err, ◌>>=◌, ◌>>◌,
}
use multi.Authz.Evaluator.{return_if}
use multi.Boundary.Control.{
  LiveAuthorityState, AuthorityChange, ChangeProposal, ChangeRecord, revert,
}
use multi.Boundary.Proposals.{
  Store, StoredProposal, ProposalStatus, pending, approved, applied, rejected, active, orphaned,
  stale, superseded, proposal_status_eq, as_str, retrieve_proposal, mark_approved, mark_applied,
  store_change_record, preview_authority_change,
}

-- The parts of `AuthPortRuntime` that proposals are about.
pub record AuthPortRuntime : Type 0 where
  pub authority : LiveAuthorityState
  pub proposals : Store
  pub fingerprint : String

pub record Approval : Type 0 where
  pub token : String

pub record Readings : Type 0 where
  pub millis : ℕ
  pub marked_at : ℤ
  pub applied_at : ℤ

abbrev pub differ : ℕ → ℕ → Bool
differ m n = ltb m n || ltb n m

unfoldable pub verify_stored_proposal_is_current :
    AuthPortRuntime → StoredProposal → Result String (Unit {0})
unfolding preview_authority_change
verify_stored_proposal_is_current b p = do
  return_if (not (p.contract_fingerprint == b.fingerprint))
      "STALE_AUTHORITY_PROPOSAL: contract fingerprint changed"
  return_if (differ p.revision b.authority.revision) (
      "STALE_AUTHORITY_PROPOSAL: expected authority revision "
      <> show_ℕ p.revision
      <> ", current authority revision "
      <> show_ℕ b.authority.revision)
  next ← preview_authority_change b.proposals b.authority p.change
  ok tt

approve_current :
    AuthPortRuntime → String → Result String (Unit {0}) → AuthPortRuntime × Result String (Unit {0})
unfolding mark_approved
approve_current b id (err e) = (b, err e)
approve_current b id (ok t) =
    let marked = mark_approved b.proposals id in (record b { proposals = marked.0 }, marked.1)

unfoldable pub needs_review : String → ProposalStatus → String
unfolding as_str
needs_review id status =
    "proposal `" <> id <> "` is " <> as_str status <> " and requires reconciliation review"

approve_found :
    AuthPortRuntime
    → String
    → Result String StoredProposal
    → AuthPortRuntime × Result String (Unit {0})
unfolding approve_current verify_stored_proposal_is_current needs_review
approve_found b id (err e) = (b, err e)
approve_found b id (ok p) = elim p.status [
  | pending ↦ approve_current b id (verify_stored_proposal_is_current b p)
  | approved ↦ (b, ok tt)
  | applied ↦ (b, err ("proposal `" <> id <> "` is already applied"))
  | rejected ↦ (b, err ("proposal `" <> id <> "` is rejected"))
  | active ↦ (b, err (needs_review id p.status))
  | orphaned ↦ (b, err (needs_review id p.status))
  | stale ↦ (b, err (needs_review id p.status))
  | superseded ↦ (b, err (needs_review id p.status))
]

unfoldable pub approve_stored_proposal :
    AuthPortRuntime → String → AuthPortRuntime × Result String (Unit {0})
unfolding approve_found retrieve_proposal
approve_stored_proposal b id = approve_found b id (retrieve_proposal b.proposals id)

unfoldable pub reverted_by : AuthorityChange → Option String
reverted_by (revert change_id) = some change_id
reverted_by change = none

unfoldable pub change_record :
    LiveAuthorityState → LiveAuthorityState → ChangeProposal → String → ℤ → ChangeRecord
unfolding reverted_by
change_record previous next p change_id at = record {
  change_id = change_id;
  proposal_id = p.id;
  change = p.change;
  previous_state = previous;
  resulting_state = next;
  applied_at = at;
  applied_by = none;
  reverted_change_id = reverted_by p.change;
}

-- The authority is replaced already.
record_change :
    AuthPortRuntime
    → LiveAuthorityState
    → ChangeProposal
    → String
    → ℤ
    → Store × Result String (Unit {0})
    → AuthPortRuntime × Result String String
unfolding store_change_record change_record
record_change b next p change_id at (s, err e) =
    (record b { authority = next; proposals = s }, err e)
record_change b next p change_id at (s, ok t) = (
  record b {
    authority = next;
    proposals = store_change_record s (change_record b.authority next p change_id at);
  },
  ok change_id,
)

unfoldable pub change_id_at : ℕ → LiveAuthorityState → String
change_id_at millis next = "change-" <> show_ℕ millis <> "-rev" <> show_ℕ next.revision

commit :
    AuthPortRuntime
    → ChangeProposal
    → Readings
    → Result String LiveAuthorityState
    → AuthPortRuntime × Result String String
unfolding record_change mark_applied change_id_at
commit b p clock (err e) = (b, err e)
commit b p clock (ok next) =
    let change_id = change_id_at clock.millis next in
    record_change b next p change_id clock.applied_at
      (mark_applied clock.marked_at b.proposals p.id change_id)

proposal_of : StoredProposal → ChangeProposal
proposal_of p = record { id = p.id; change = p.change; preview = p.preview; revision = p.revision }

with_revision :
    AuthPortRuntime × Result String String → AuthPortRuntime × Result String (String × ℕ)
with_revision (b, err e) = (b, err e)
with_revision (b, ok change_id) = (b, ok (change_id, b.authority.revision))

-- What may be applied: an approved proposal that is current.
ready : AuthPortRuntime → String → Result String StoredProposal
unfolding retrieve_proposal verify_stored_proposal_is_current
ready b id = do
  p ← retrieve_proposal b.proposals id
  return_if (not (p.status == approved)) ("proposal `" <> id <> "` is not approved")
  verify_stored_proposal_is_current b p
  ok p

module _ (token_of : AuthorityChange → String) where
  unfoldable pub for_proposal : ChangeProposal → Approval
  for_proposal p = record { token = "dev-approval-" <> token_of p.change }

  unfoldable pub verify : Approval → ChangeProposal → Bool
  unfolding for_proposal
  verify approval p = approval.token == (for_proposal p).token

  accepted : AuthPortRuntime → ChangeProposal → Approval → Result String LiveAuthorityState
  unfolding verify preview_authority_change
  accepted b p approval = do
    return_if (not (verify approval p)) "approval token does not match proposal"
    return_if (differ p.revision b.authority.revision) "change conflicts with newer authority state"
    preview_authority_change b.proposals b.authority p.change

  unfoldable pub apply_change :
      AuthPortRuntime
      → ChangeProposal
      → Approval
      → Readings
      → AuthPortRuntime × Result String String
  unfolding commit accepted
  apply_change b p approval clock = commit b p clock (accepted b p approval)

  apply_ready :
      AuthPortRuntime
      → Approval
      → Readings
      → Result String StoredProposal
      → AuthPortRuntime × Result String (String × ℕ)
  unfolding with_revision apply_change proposal_of
  apply_ready b approval clock (err e) = (b, err e)
  apply_ready b approval clock (ok p) =
      with_revision (apply_change b (proposal_of p) approval clock)

  unfoldable pub apply_stored_proposal :
      AuthPortRuntime → String → Approval → Readings → AuthPortRuntime × Result String (String × ℕ)
  unfolding apply_ready ready
  apply_stored_proposal b id approval clock = apply_ready b approval clock (ready b id)
