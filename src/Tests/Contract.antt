-- ===== src/Tests/Contract.antt =====
-- Scopes, delegations and ceremonies.
use multi.Prelude.{none, List, [], ◌∷◌, ◌≡◌, refl, ◌≤◌, ◌++◌, pos, inl}
use multi.Contract.Delegation.{is_valid_at, status_at, has_expired, DelegationStatus-discrete}
use multi.Contract.Delegation.Status.{IsLive, is_valid_at_iff}
use multi.Contract.Ceremony.{
  AuthenticationCeremonyState, AuthenticationCeremony, challenged, verified, completed, failed,
  password, new, can_transition_to, transition,
}
use multi.Contract.Ceremony.Lifecycle.{run, successes, successes-new, run-terminal, run-completed}
use multi.Tests.Data.{delegation_to}

is_valid_at_iff_example : IsLive (delegation_to "bot") (pos 10)
unfolding is_valid_at status_at has_expired DelegationStatus-discrete
is_valid_at_iff_example = (is_valid_at_iff (delegation_to "bot") (pos 10)).0 refl

abbrev ceremony : AuthenticationCeremony
ceremony = record {
  id = "c1";
  method = password;
  principal_hint = none;
  state = challenged;
  created_at = pos 0;
  expires_at = pos 9;
}

abbrev done : AuthenticationCeremony
done = record ceremony { state = completed }

abbrev requested : List AuthenticationCeremonyState
requested = completed ∷ verified ∷ completed ∷ failed ∷ []

successes-new_example : successes (new "c1" password none (pos 0) (pos 9)) requested ≤ 4
successes-new_example = successes-new "c1" password none (pos 0) (pos 9) requested

run-terminal_example : run done requested ≡ done
run-terminal_example = run-terminal done requested (inl refl)

run-completed_example :
    (before : List AuthenticationCeremonyState) × (after : List AuthenticationCeremonyState)
    × (requested ≡ before ++ completed ∷ after)
    × ((run ceremony before).state ≡ verified)
unfolding run transition can_transition_to
run-completed_example = run-completed ceremony requested (λ e. cc) refl
