-- ===== src/Contract/Ceremony/Lifecycle.antt =====
-- What every sequence of requested transitions does to a ceremony.
use multi.Prelude.{
  ℕ, ◌+◌, ◌≤◌, String, true, false, Option, List, [], ◌∷◌, ◌++◌, ◌≡◌, refl, ℤ, if◌then◌else◌, arith,
  Bool-cases, is_ok, ◌⊎◌, inl, inr, ap, ◌≢◌,
}
use multi.Contract.Ceremony.{
  AuthenticationMethod, AuthenticationCeremonyState, created, challenged, awaiting_user, verified,
  completed, failed, expired, cancelled, AuthenticationCeremony, can_transition_to, new, transition,
}

-- The transitions are asked for one after the other; one that is refused is passed over.
unfoldable pub run :
    AuthenticationCeremony → List AuthenticationCeremonyState → AuthenticationCeremony
run c [] = c
run c (next ∷ rest) = run (transition c next).0 rest

-- How many of the calls return no error.
pub successes : AuthenticationCeremony → List AuthenticationCeremonyState → ℕ
successes c [] = 0
successes c (next ∷ rest) =
    (if is_ok (transition c next).1 then 1 else 0) + successes (transition c next).0 rest

-- An upper bound of the transitions that a state has before it.
abbrev rank : AuthenticationCeremonyState → ℕ
rank created = 4
rank challenged = 3
rank awaiting_user = 2
rank verified = 1
rank _ = 0

can_transition_to-rank :
    (s t : AuthenticationCeremonyState) → can_transition_to s t ≡ true → rank t + 1 ≤ rank s
unfolding can_transition_to
can_transition_to-rank s t h = ground arith

successes-le-rank :
    (c : AuthenticationCeremony) (nexts : List AuthenticationCeremonyState)
    → successes c nexts ≤ rank c.state
unfolding successes transition
successes-le-rank c [] = omega arith
successes-le-rank c (next ∷ rest) = elim (Bool-cases (can_transition_to c.state next)) [
  | inl moves ↦ rw moves (
      omega (
        arith,
        can_transition_to-rank c.state next moves,
        successes-le-rank (record c { state = next }) rest,
      ))
  | inr stays ↦ rw stays (omega (arith, successes-le-rank c rest))
]

-- However many transitions are asked of a new ceremony, at most four of the calls return no error.
pub successes-new :
    (id : String) (method : AuthenticationMethod) (hint : Option String) (created_at expires_at : ℤ)
    (nexts : List AuthenticationCeremonyState)
    → successes (new id method hint created_at expires_at) nexts ≤ 4
unfolding new
successes-new id method hint created_at expires_at nexts =
    successes-le-rank
      (record {
        id = id;
        method = method;
        principal_hint = hint;
        state = created;
        created_at = created_at;
        expires_at = expires_at;
      })
      nexts

abbrev pub IsTerminal : AuthenticationCeremonyState → Type 0
IsTerminal s = (s ≡ completed) ⊎ (s ≡ failed) ⊎ (s ≡ expired) ⊎ (s ≡ cancelled)

terminal_refuses :
    (s t : AuthenticationCeremonyState) → IsTerminal s → can_transition_to s t ≡ false
unfolding can_transition_to
terminal_refuses s t h = ground arith

-- A ceremony that is completed, failed, expired or cancelled is left as it is by all that follows.
pub run-terminal :
    (c : AuthenticationCeremony) (nexts : List AuthenticationCeremonyState)
    → IsTerminal c.state
    → run c nexts ≡ c
unfolding run transition
run-terminal c [] h = refl
run-terminal c (next ∷ rest) h = rw (terminal_refuses c.state next h) (run-terminal c rest h)

completed_from :
    (s : AuthenticationCeremonyState) → can_transition_to s completed ≡ true → s ≡ verified
unfolding can_transition_to
completed_from s h = ground arith

state-discrete : Discrete AuthenticationCeremonyState
state-discrete = hlevel

completing :
    (c : AuthenticationCeremony) (next : AuthenticationCeremonyState)
    → c.state ≢ completed
    → (transition c next).0.state ≡ completed
    → (next ≡ completed) × (c.state ≡ verified)
unfolding transition
completing c next fresh done = elim (Bool-cases (can_transition_to c.state next)) [
  | inl moves ↦
      let e : next ≡ completed = rw moves at done in (e, completed_from c.state (rw e at moves))
  | inr stays ↦ absurd (fresh (rw stays at done))
]

-- A ceremony that was not completed and is so in the end was verified on the way.
pub run-completed :
    (c : AuthenticationCeremony) (nexts : List AuthenticationCeremonyState)
    → c.state ≢ completed
    → (run c nexts).state ≡ completed
    → (before : List AuthenticationCeremonyState) × (after : List AuthenticationCeremonyState)
      × (nexts ≡ before ++ completed ∷ after)
      × ((run c before).state ≡ verified)
unfolding run
run-completed c [] fresh done = absurd (fresh done)
run-completed c (next ∷ rest) fresh done =
    elim (state-discrete (transition c next).0.state completed) [
      | yes now ↦
          let (e, was) = completing c next fresh now in ([], rest, ap (λ s. s ∷ rest) e, was)
      | no later ↦
          let (before, after, e, was) = run-completed (transition c next).0 rest later done in
          (next ∷ before, after, ap (λ l. next ∷ l) e, was)
    ]
