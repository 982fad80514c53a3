-- ===== src/Boundary/Applying/Applied.antt =====
-- What applying a stored proposal leaves.
use multi.Prelude.{
  ℕ, ltb, ◌+◌, ◌%◌, ◌^◌, ◌<◌, String, ◌<>◌, false, not, Option, none, some, ◌≡◌, refl, sym, ap, ◌∙◌,
  ◌==◌, ==_refl, string_eq, lookup, lookup-insert_self, Result, ok, err, ok_or, bind-ok, inl, inr,
  Bool-cases, arith,
}
use multi.Authz.Evaluator.{return_if}
use multi.Boundary.Control.{
  LiveAuthorityState, AuthorityChange, ChangeProposal, ChangeRecord, revert, protect_route,
  unprotect_route, set_capability_policy, set_provider_enabled, set_password_policy, next_revision,
  apply_revert_change,
}
use multi.Boundary.Control.Reverting.{apply_change-revision}
use multi.Boundary.Proposals.{
  Store, StoredProposal, ProposalStatus-discrete, proposal_status_eq, approved, applied,
  retrieve_proposal, retrieve_change_record, store_change_record, mark_applied, updated,
  preview_authority_change,
}
use multi.Boundary.Applying
use multi.Boundary.Applying.{
  AuthPortRuntime, Approval, Readings, record_change, commit, accepted, ready, apply_ready,
  with_revision, proposal_of, apply_stored_proposal, change_record, change_id_at, verify, differ,
  verify_stored_proposal_is_current,
}

reverted-revision :
    (b n : LiveAuthorityState) (change_id : String) (r : ChangeRecord)
    → apply_revert_change b change_id r ≡ ok n
    → n.revision ≡ (b.revision + 1) % 2 ^ 64
unfolding apply_revert_change next_revision
reverted-revision b n change_id r h = elim (Bool-cases (r.change_id == change_id)) [
  | inl same ↦ elim (Bool-cases (ltb b.revision r.resulting_state.revision)) [
    | inl older ↦
        let k : Result.err "cannot revert against an older authority state" ≡ ok n =
          rw (same, older) at h in
        cc k
    | inr newer ↦
        let k : ok (record (r.previous_state) { revision = next_revision b }) ≡ ok n =
          rw (same, newer) at h in
        ground (arith, k)
  ]
  | inr other ↦
      let k : Result.err "revert change id does not match the stored record" ≡ ok n =
        rw other at h in
      cc k
]

preview-revision :
    (s : Store) (b n : LiveAuthorityState) (c : AuthorityChange)
    → preview_authority_change s b c ≡ ok n
    → n.revision ≡ (b.revision + 1) % 2 ^ 64
unfolding preview_authority_change
preview-revision s b n (protect_route method path capability) h =
    apply_change-revision b n (protect_route method path capability) h
preview-revision s b n (unprotect_route method path) h =
    apply_change-revision b n (unprotect_route method path) h
preview-revision s b n (set_capability_policy capability policy) h =
    apply_change-revision b n (set_capability_policy capability policy) h
preview-revision s b n (set_provider_enabled provider enabled) h =
    apply_change-revision b n (set_provider_enabled provider enabled) h
preview-revision s b n (set_password_policy policy) h =
    apply_change-revision b n (set_password_policy policy) h
preview-revision s b n (revert change_id) h =
    let (r, found, k) = bind-ok (retrieve_change_record s change_id) _ n h in
    reverted-revision b n change_id r k

-- What is left after a change from the authority of `b` to that of `c`.
record IsRecorded (b c : AuthPortRuntime) (id change_id : String) : Type 0 where
  change : ChangeRecord
  proposal : StoredProposal
  kept : retrieve_change_record c.proposals change_id ≡ ok change
  identified : change.change_id ≡ change_id
  before : change.previous_state ≡ b.authority
  after : change.resulting_state ≡ c.authority
  found : lookup id c.proposals.proposals ≡ some proposal
  done : proposal.status ≡ applied

recorded :
    (b : AuthPortRuntime) (next : LiveAuthorityState) (p : ChangeProposal) (made : String)
    (clock : Readings) (q : StoredProposal)
    → IsRecorded b
        (record_change b next p made clock.applied_at (
          updated b.proposals p.id
            (λ q. record q {
              status = applied;
              applied_at = some clock.marked_at;
              change_id = some made;
            })
            (some q))).0
        p.id
        made
unfolding updated record_change store_change_record retrieve_change_record change_record
recorded b next p made clock q = record {
  change = change_record b.authority next p made clock.applied_at;
  proposal = record q {
    status = applied;
    applied_at = some clock.marked_at;
    change_id = some made;
  };
  kept =
      rw
        (lookup-insert_self made (change_record b.authority next p made clock.applied_at)
          b.proposals.changes)
        refl;
  identified = refl;
  before = refl;
  after = refl;
  found = lookup-insert_self p.id _ b.proposals.proposals;
  done = refl;
}

recorded_if :
    (b c : AuthPortRuntime) (next : LiveAuthorityState) (p : ChangeProposal)
    (made change_id : String) (clock : Readings) (o : Option StoredProposal)
    → record_change b next p made clock.applied_at (
        updated b.proposals p.id
          (λ q. record q {
            status = applied;
            applied_at = some clock.marked_at;
            change_id = some made;
          })
          o)
      ≡ (c, ok change_id)
    → IsRecorded b c p.id change_id × (c.authority ≡ next)
unfolding updated record_change
recorded_if b c next p made change_id clock none h = cc h
recorded_if b c next p made change_id clock (some q) h =
    let all = recorded b next p made clock q in
    let left = sym (ap (λ x. x.0) h) in
    let name : made ≡ change_id = ground (arith, h) in rw left (rw (sym name) (all, refl))

found_in :
    (o : Option StoredProposal) (e : String) (p : StoredProposal) → ok_or o e ≡ ok p → o ≡ some p
found_in none e p h = cc h
found_in (some q) e p h = let one : q ≡ p = cc h in ap some one

module _ (token_of : AuthorityChange → String) where
  accepted-previews :
      (b : AuthPortRuntime) (p : ChangeProposal) (approval : Approval) (next : LiveAuthorityState)
      → accepted token_of b p approval ≡ ok next
      → preview_authority_change b.proposals b.authority p.change ≡ ok next
  unfolding accepted
  accepted-previews b p approval next h =
      let (u, _, k) =
        bind-ok
          (return_if (not (verify token_of approval p)) "approval token does not match proposal") _
          next h in
      let (v, _, l) =
        bind-ok
          (return_if (differ p.revision b.authority.revision)
            "change conflicts with newer authority state")
          _ next k in
      l

  commit-IsRecorded :
      (b c : AuthPortRuntime) (p : ChangeProposal) (clock : Readings) (change_id : String)
      (r : Result String LiveAuthorityState)
      → commit b p clock r ≡ (c, ok change_id)
      → (r ≡ ok c.authority) × IsRecorded b c p.id change_id
  unfolding commit mark_applied
  commit-IsRecorded b c p clock change_id (err e) h = cc h
  commit-IsRecorded b c p clock change_id (ok next) h =
      let (all, same) =
        recorded_if b c next p (change_id_at clock.millis next) change_id clock
          (lookup p.id b.proposals.proposals) h in
      (ap ok (sym same), all)

  with_revision-ok :
      (c : AuthPortRuntime) (change_id : String) (revision : ℕ)
      (x : AuthPortRuntime × Result String String)
      → with_revision x ≡ (c, ok (change_id, revision))
      → (x ≡ (c, ok change_id)) × (revision ≡ c.authority.revision)
  unfolding with_revision
  with_revision-ok c change_id revision (b, err e) h = cc h
  with_revision-ok c change_id revision (b, ok i) h =
      let kept : b ≡ c = ap (λ x. x.0) h in
      let name : i ≡ change_id = cc h in
      let seen : b.authority.revision ≡ revision = cc h in
      (cc (kept, name), sym seen ∙ ap (λ x. x.authority.revision) kept)

  apply_ready-IsRecorded :
      (b c : AuthPortRuntime) (approval : Approval) (clock : Readings) (change_id : String)
      (revision : ℕ) (r : Result String StoredProposal)
      → apply_ready token_of b approval clock r ≡ (c, ok (change_id, revision))
      → (p : StoredProposal) × (r ≡ ok p)
        × (preview_authority_change b.proposals b.authority p.change ≡ ok c.authority)
        × IsRecorded b c p.id change_id
        × (revision ≡ c.authority.revision)
  unfolding apply_ready Applying.apply_change proposal_of
  apply_ready-IsRecorded b c approval clock change_id revision (err e) h = cc h
  apply_ready-IsRecorded b c approval clock change_id revision (ok p) h =
      let (one, two) =
        with_revision-ok c change_id revision
          (Applying.apply_change token_of b (proposal_of p) approval clock) h in
      let (previewed, kept) =
        commit-IsRecorded b c (proposal_of p) clock change_id
          (accepted token_of b (proposal_of p) approval) one in
      (p, refl, accepted-previews b (proposal_of p) approval c.authority previewed, kept, two)

  ready-Current :
      (b : AuthPortRuntime) (id : String) (p : StoredProposal)
      → ready b id ≡ ok p
      → lookup id b.proposals.proposals ≡ some p
  unfolding ready retrieve_proposal
  ready-Current b id p h =
      let (q, found, k) = bind-ok (retrieve_proposal b.proposals id) _ p h in
      let (u, _, l) =
        bind-ok (return_if (not (q.status == approved)) ("proposal `" <> id <> "` is not approved"))
          _ p k in
      let (v, _, m) = bind-ok (verify_stored_proposal_is_current b q) _ p l in
      let one : q ≡ p = cc m in found_in (lookup id b.proposals.proposals) _ p (found ∙ ap ok one)

  applied-refused :
      (b : AuthPortRuntime) (id : String) (p : StoredProposal) (approval : Approval)
      (clock : Readings)
      → lookup id b.proposals.proposals ≡ some p
      → p.status ≡ applied
      → apply_stored_proposal token_of b id approval clock
        ≡ (b, err ("proposal `" <> id <> "` is not approved"))
  unfolding apply_stored_proposal apply_ready ready retrieve_proposal ProposalStatus-discrete
  applied-refused b id p approval clock found done = rw found (rw done refl)

  recorded-revert :
      (b c : AuthPortRuntime) (id change_id : String)
      → IsRecorded b c id change_id
      → preview_authority_change c.proposals c.authority (revert change_id)
        ≡ ok (record (b.authority) { revision = (c.authority.revision + 1) % 2 ^ 64 })
  unfolding preview_authority_change apply_revert_change next_revision
  recorded-revert b c id change_id h =
      let newer : ltb c.authority.revision h.change.resulting_state.revision ≡ false =
        rw h.after (ground arith) in
      rw h.kept (rw h.identified (rw (==_refl change_id) (rw newer (rw h.before refl))))

  -- Where the proposals are kept under their own ids and the revision does not wrap, a stored
  -- proposal that is applied raises the revision by one, which the answer tells; the change can be
  -- reverted by the id that the answer tells, which gives back exactly the authority before it but
  -- for the revision; and the same proposal is not applied again, whatever the approval.
  pub apply_stored_proposal-revert :
      (b c : AuthPortRuntime) (id change_id : String) (approval again : Approval)
      (clock later : Readings) (revision : ℕ)
      → ((p : StoredProposal) → lookup id b.proposals.proposals ≡ some p → p.id ≡ id)
      → b.authority.revision + 2 < 2 ^ 64
      → apply_stored_proposal token_of b id approval clock ≡ (c, ok (change_id, revision))
      → (revision ≡ b.authority.revision + 1)
        × (preview_authority_change c.proposals c.authority (revert change_id)
            ≡ ok (record (b.authority) { revision = b.authority.revision + 2 }))
        × (apply_stored_proposal token_of c id again later
            ≡ (c, err ("proposal `" <> id <> "` is not approved")))
  unfolding apply_stored_proposal
  apply_stored_proposal-revert b c id change_id approval again clock later revision keyed small h =
      let (p, current, previewed, kept, told) =
        apply_ready-IsRecorded b c approval clock change_id revision (ready b id) h in
      let own = keyed p (ready-Current b id p current) in
      let raised = preview-revision b.proposals b.authority c.authority p.change previewed in
      let next : c.authority.revision ≡ b.authority.revision + 1 = omega arith in
      let last : (c.authority.revision + 1) % 2 ^ 64 ≡ b.authority.revision + 2 = omega arith in
      let found : lookup id c.proposals.proposals ≡ some kept.proposal = rw own at kept.found in
      (
        told ∙ next,
        rw (sym last) (recorded-revert b c p.id change_id kept),
        applied-refused c id kept.proposal again later found kept.done,
      )
