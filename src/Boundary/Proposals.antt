-- ===== src/Boundary/Proposals.antt =====
-- crates/boundary/src/proposal_store.rs, `MemoryProposalStore`, and the guards of runtime.rs around
-- it. A `SystemTime` is an integer, and the time of a call is an argument. Looking a proposal up by
-- its change is left out.
use multi.Prelude.{
  ℕ, Eq, zero, suc, ◌+◌, ◌%◌, ◌^◌, String, ◌<>◌, Option, none, some, List, [], ◌∷◌, map, Dict,
  lookup, insert, contains_key, string_eq, if◌then◌else◌, ℤ, leb_ℤ, show_ℕ, Result, ok, err, ◌>>=◌,
  ok_or,
}
use multi.Storage.Audit.{truncate}
use multi.Storage.Sorting.{str_le, sort_by}
use multi.Boundary.Control.{
  AuthorityChange, revert, ChangeRecord, LiveAuthorityState, Preview, apply_change,
  apply_revert_change, change_type,
}

pub data ProposalStatus : Type 0 where
  pending approved applied rejected active orphaned stale superseded : ProposalStatus

unfoldable pub as_str : ProposalStatus → String
as_str pending = "pending"
as_str approved = "approved"
as_str applied = "applied"
as_str rejected = "rejected"
as_str active = "active"
as_str orphaned = "orphaned"
as_str stale = "stale"
as_str superseded = "superseded"

unfoldable pub ProposalStatus-discrete : Discrete ProposalStatus
ProposalStatus-discrete = hlevel

instance abbrev pub proposal_status_eq : Eq ProposalStatus
proposal_status_eq = record { dec = ProposalStatus-discrete }

pub data ProposalSource : Type 0 where
  explicit inferred imported : ProposalSource

pub record StoredProposal : Type 0 where
  pub id : String
  pub change : AuthorityChange
  pub preview : Preview
  pub revision : ℕ
  pub contract_fingerprint : String
  pub discovery_revision : ℕ
  pub source : ProposalSource
  pub status : ProposalStatus
  pub created_at : ℤ
  pub applied_at : Option ℤ
  pub change_id : Option String
  pub rejection_reason : Option String

pub record ProposalMetadata : Type 0 where
  pub id : String
  pub change_type : String
  pub status : ProposalStatus
  pub revision : ℕ
  pub source : ProposalSource
  pub created_at : ℤ
  pub applied_at : Option ℤ

pub record Store : Type 0 where
  pub proposals : Dict String StoredProposal
  pub changes : Dict String ChangeRecord
  pub next_id : ℕ

unfoldable pub new : Store
new = record { proposals = []; changes = []; next_id = 1 }

unfoldable pub allocate_proposal_id : Store → Store × String
allocate_proposal_id s =
    (record s { next_id = (s.next_id + 1) % 2 ^ 64 }, "proposal-" <> show_ℕ s.next_id)

unfoldable pub store_proposal : Store → StoredProposal → Store × Result String (Unit {0})
store_proposal s p =
    if contains_key p.id s.proposals
    then (s, err ("proposal `" <> p.id <> "` already exists"))
    else (record s { proposals = insert p.id p s.proposals }, ok tt)

unfoldable pub not_found : String → String
not_found id = "proposal `" <> id <> "` was not found"

unfoldable pub retrieve_proposal : Store → String → Result String StoredProposal
unfolding not_found
retrieve_proposal s id = ok_or (lookup id s.proposals) (not_found id)

-- `get_mut`, and what is assigned through it.
unfoldable pub updated :
    Store
    → String
    → (StoredProposal → StoredProposal)
    → Option StoredProposal
    → Store × Result String (Unit {0})
unfolding not_found
updated s id f none = (s, err (not_found id))
updated s id f (some p) = (record s { proposals = insert id (f p) s.proposals }, ok tt)

unfoldable pub mark_applied : ℤ → Store → String → String → Store × Result String (Unit {0})
unfolding updated
mark_applied now s id change_id =
    updated s id
      (λ p. record p { status = applied; applied_at = some now; change_id = some change_id })
      (lookup id s.proposals)

unfoldable pub mark_approved : Store → String → Store × Result String (Unit {0})
unfolding updated
mark_approved s id = updated s id (λ p. record p { status = approved }) (lookup id s.proposals)

unfoldable pub mark_rejected : Store → String → String → Store × Result String (Unit {0})
unfolding updated
mark_rejected s id reason =
    updated s id (λ p. record p { status = rejected; rejection_reason = some reason })
      (lookup id s.proposals)

unfoldable pub store_change_record : Store → ChangeRecord → Store
store_change_record s r = record s { changes = insert r.change_id r s.changes }

unfoldable pub retrieve_change_record : Store → String → Result String ChangeRecord
retrieve_change_record s id = ok_or (lookup id s.changes) ("change `" <> id <> "` was not found")

reverse_onto {ℓ} : {A : Type ℓ} → List A → List A → List A
reverse_onto ys [] = ys
reverse_onto ys (x ∷ xs) = reverse_onto (x ∷ ys) xs

-- `skip`
skip {ℓ} : {A : Type ℓ} → ℕ → List A → List A
skip zero xs = xs
skip (suc n) [] = []
skip (suc n) (x ∷ xs) = skip n xs

metadata_of : StoredProposal → ProposalMetadata
unfolding change_type
metadata_of p = record {
  id = p.id;
  change_type = change_type p.change;
  status = p.status;
  revision = p.revision;
  source = p.source;
  created_at = p.created_at;
  applied_at = p.applied_at;
}

-- The values of a `BTreeMap` come in the order of the keys.
values_by_key : {V : Type 0} → Dict String V → List V
values_by_key d = map (λ (k, v). v) (sort_by (λ (j, v) (k, w). str_le j k) d)

unfoldable pub list_proposals : Store → ℕ → ℕ → List ProposalMetadata
unfolding reverse_onto skip metadata_of values_by_key truncate
list_proposals s limit offset = map metadata_of (
    truncate limit (
      skip offset (
        reverse_onto []
          (sort_by (λ p q. leb_ℤ p.created_at q.created_at) (values_by_key s.proposals)))))

unfoldable pub list_change_records : Store → ℕ → ℕ → List ChangeRecord
unfolding reverse_onto skip values_by_key truncate
list_change_records s limit offset = truncate limit (
    skip offset (
      reverse_onto [] (sort_by (λ p q. leb_ℤ p.applied_at q.applied_at) (values_by_key s.changes))))

-- crates/boundary/src/runtime.rs
unfoldable pub preview_authority_change :
    Store → LiveAuthorityState → AuthorityChange → Result String LiveAuthorityState
unfolding retrieve_change_record apply_revert_change apply_change
preview_authority_change s current (revert change_id) =
    retrieve_change_record s change_id >>= λ r. apply_revert_change current change_id r
preview_authority_change s current change = apply_change current change

-- `match stored.status` of rejecting: an applied proposal stays, a rejected one is done.
reject_found :
    Store → String → String → Result String StoredProposal → Store × Result String (Unit {0})
unfolding mark_rejected
reject_found s id reason (err e) = (s, err e)
reject_found s id reason (ok p) = elim p.status [
  | applied ↦ (s, err ("proposal `" <> id <> "` is already applied"))
  | rejected ↦ (s, ok tt)
  | pending ↦ mark_rejected s id reason
  | approved ↦ mark_rejected s id reason
  | active ↦ mark_rejected s id reason
  | orphaned ↦ mark_rejected s id reason
  | stale ↦ mark_rejected s id reason
  | superseded ↦ mark_rejected s id reason
]

unfoldable pub reject_stored_proposal : Store → String → String → Store × Result String (Unit {0})
unfolding reject_found retrieve_proposal
reject_stored_proposal s id reason = reject_found s id reason (retrieve_proposal s id)
