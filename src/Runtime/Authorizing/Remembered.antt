-- ===== src/Runtime/Authorizing/Remembered.antt =====
-- What questions leave behind: at most a hundred decisions, and no change of the stores.
use multi.Prelude.{
  ℕ, suc, ◌≤◌, Option, List, [], ◌∷◌, ◌++◌, length, length-append, ltb, ◌≡◌, refl, ◌∙◌, inl, inr, ℤ,
  Result, ok, err, arith, Bool-cases,
}
use multi.Contract.Ids.{AuditEventId, Capability}
use multi.Authz.Decision.{AuthorizationDecision}
use multi.Authz.Policy.{AuthorizationRequest, ResourceAttributes}
use multi.Authz.Reason.{DenialReason}
use multi.Contract.Run.{AgentRun}
use multi.Runtime.Auditing.{audit, last_audit_event_id}
use multi.Runtime.Errors.{AuthError}
use multi.Runtime.Mesh.{AuthMesh, Host, policy}
use multi.Runtime.Stateful.{continued, gets}
use multi.Runtime.Recording.{
  remembered, without_first, remember_decision, record_decision, record_of_decision,
}
use multi.Runtime.Running.{RuntimeContext}
use multi.Runtime.Authorizing.{
  remembered_if, recorded, recorded_if, authorize_with_authority_revision,
  authorize_request_with_authority_revision, authorize_run_request_with_authority_revision, for_run,
  request_of_run, with_run, context_of_run, id_of_policy, run_denial,
}
use multi.Runtime.Authorizing.Granting.{
  Question, use_capability, make_request, make_run_request, ask,
}

length-without_first :
    {A : Type 0} (xs : List A) (n : ℕ) → length xs ≤ suc n → length (without_first xs) ≤ n
unfolding without_first
length-without_first [] n h = omega arith
length-without_first (x ∷ xs) n h = omega arith

remembered-bounded :
    {A : Type 0} (ds : List A) (e : A) → length ds ≤ 100 → length (remembered ds e) ≤ 100
unfolding remembered
remembered-bounded ds e h =
    let longer : length (ds ++ e ∷ []) ≤ 101 = omega (arith, length-append ds (e ∷ [])) in
    elim (Bool-cases (ltb 100 (length (ds ++ e ∷ [])))) [
      | inl over ↦ rw over (length-without_first (ds ++ e ∷ []) 100 longer)
      | inr under ↦ rw under (ground arith)
    ]

-- The stores and the declaration are as they were, and the memory of decisions is bounded.
record Quiet {Log : Type 0} (m n : AuthMesh Log) : Type 0 where
  stores : n.stores ≡ m.stores
  config : n.config ≡ m.config
  bounded : length m.decisions ≤ 100 → length n.decisions ≤ 100

module _ {Log : Type 0} where
  state-at :
      {A B : Type 0} (f : A → AuthMesh Log → Result AuthError B)
      (p : AuthMesh Log × Result AuthError A)
      → (continued (λ x. gets (f x)) p).0 ≡ p.0
  state-at f (n, ok x) = refl
  state-at f (n, err e) = refl

  state-record_decision :
      (host : Host Log) (context : RuntimeContext) (c : Capability) (d : AuthorizationDecision)
      (now : ℤ) (m : AuthMesh Log)
      → (record_decision host context c d now m).0
        ≡ (audit host context.tenant (record_of_decision context c d) now m).0
  unfolding record_decision
  state-record_decision host context c d now m =
      state-at (λ _ m. ok (last_audit_event_id m.audit_sequence context.tenant))
        (audit host context.tenant (record_of_decision context c d) now m)

  remembered_if-Quiet :
      (host : Host Log) (context : RuntimeContext) (c : Capability) (d : AuthorizationDecision)
      (now : ℤ) (revision : ℕ) (m : AuthMesh Log) (p : AuthMesh Log × Result AuthError AuditEventId)
      → Quiet m p.0
      → Quiet m (remembered_if host context c d now revision p).0
  unfolding remembered_if remember_decision
  remembered_if-Quiet host context c d now revision m (n, err e) h = h
  remembered_if-Quiet host context c d now revision m (n, ok id) h = record {
    stores = h.stores;
    config = h.config;
    bounded = λ b. remembered-bounded n.decisions _ (h.bounded b);
  }

  recorded-Quiet :
      (host : Host Log) (context : RuntimeContext) (c : Capability) (d : AuthorizationDecision)
      (now : ℤ) (revision : ℕ) (m : AuthMesh Log)
      → Quiet m (recorded host context c d now revision m).0
  unfolding recorded audit
  recorded-Quiet host context c d now revision m =
      remembered_if-Quiet host context c d now revision m (record_decision host context c d now m) (
        rw (state-record_decision host context c d now m)
          (record { stores = refl; config = refl; bounded = λ b. b }))

  recorded_if-Quiet :
      (host : Host Log) (context : RuntimeContext) (c : Capability) (now : ℤ) (revision : ℕ)
      (r : Result AuthorizationDecision AuthorizationDecision) (m : AuthMesh Log)
      → Quiet m (recorded_if host context c now revision r m).0
  unfolding recorded_if
  recorded_if-Quiet host context c now revision (ok d) m =
      recorded-Quiet host context c d now revision m
  recorded_if-Quiet host context c now revision (err d) m = record {
    stores = refl;
    config = refl;
    bounded = λ b. b;
  }

  for_run-Quiet :
      (host : Host Log) (context : RuntimeContext) (request : AuthorizationRequest)
      (attributes : Option ResourceAttributes) (now : ℤ) (revision : ℕ)
      (r : Result (DenialReason × Option AgentRun) AgentRun) (m : AuthMesh Log)
      → Quiet m (for_run host context request attributes now revision r m).0
  unfolding for_run authorize_request_with_authority_revision request_of_run
  for_run-Quiet host context request attributes now revision (ok run) m =
      recorded_if-Quiet host (with_run context run) request.capability now revision _ m
  for_run-Quiet host context request attributes now revision (err (reason, run)) m =
      recorded-Quiet host (context_of_run context run) request.capability
        (run_denial reason request (id_of_policy (policy m.config m.stores context.tenant))) now
        revision m

  ask-Quiet :
      (host : Host Log) (context : RuntimeContext) (q : Question) (now : ℤ) (revision : ℕ)
      (m : AuthMesh Log)
      → Quiet m (ask host context q now revision m).0
  unfolding ask authorize_with_authority_revision authorize_request_with_authority_revision
      authorize_run_request_with_authority_revision
  ask-Quiet host context (use_capability c) now revision m =
      recorded_if-Quiet host context c now revision _ m
  ask-Quiet host context (make_request request attributes) now revision m =
      recorded_if-Quiet host context request.capability now revision _ m
  ask-Quiet host context (make_run_request id request attributes) now revision m =
      for_run-Quiet host context request attributes now revision _ m

  -- One question after the other, each with its context, its time and its revision.
  unfoldable pub converse :
      Host Log → List (RuntimeContext × Question × ℤ × ℕ) → AuthMesh Log → AuthMesh Log
  unfolding ask
  converse host [] m = m
  converse host ((context, q, now, revision) ∷ rest) m =
      converse host rest (ask host context q now revision m).0

  -- However many questions a mesh with at most a hundred remembered decisions is asked, and whatever the
  -- audit log makes of them, it remembers at most a hundred, and its stores and its declaration are
  -- as they were.
  pub converse-bounded :
      (host : Host Log) (questions : List (RuntimeContext × Question × ℤ × ℕ)) (m : AuthMesh Log)
      → length m.decisions ≤ 100
      → (length (converse host questions m).decisions ≤ 100)
        × ((converse host questions m).stores ≡ m.stores)
        × ((converse host questions m).config ≡ m.config)
  unfolding converse
  converse-bounded host [] m h = (h, refl, refl)
  converse-bounded host ((context, q, now, revision) ∷ rest) m h =
      let quiet = ask-Quiet host context q now revision m in
      let (bounded, stores, config) =
        converse-bounded host rest (ask host context q now revision m).0 (quiet.bounded h) in
      (bounded, stores ∙ quiet.stores, config ∙ quiet.config)
