-- ===== src/Boundary/Control/Reverting.antt =====
-- What is left of the later changes when a change is reverted.
use multi.Prelude.{
  ◌+◌, ◌%◌, ◌^◌, ◌<◌, String, false, List, [], ◌∷◌, length, ltb, ◌≡◌, refl, ==_refl, string_eq,
  Result, ok, ◌>>=◌, bind-ok, arith,
}
use multi.Dsl.Passwords.{validate}
use multi.Boundary.Control.{
  LiveAuthorityState, AuthorityChange, ChangeRecord, protect_route, unprotect_route,
  set_capability_policy, set_provider_enabled, set_password_policy, revert, changed, next_revision,
  apply_change, apply_revert_change,
}

-- One change after the other, each applied to what the one before left.
unfoldable pub apply_all :
    LiveAuthorityState → List AuthorityChange → Result String LiveAuthorityState
apply_all s [] = ok s
apply_all s (c ∷ cs) = apply_change s c >>= λ next. apply_all next cs

changed-revision :
    (s n : LiveAuthorityState) (c : AuthorityChange) → changed s c ≡ ok n → n.revision ≡ s.revision
unfolding changed
changed-revision s n (protect_route method path capability) h = ground arith
changed-revision s n (unprotect_route method path) h = ground arith
changed-revision s n (set_capability_policy capability policy) h = ground arith
changed-revision s n (set_provider_enabled provider enabled) h = ground arith
changed-revision s n (set_password_policy policy) h =
    let (u, _, k) = bind-ok (validate policy) _ n h in ground arith
changed-revision s n (revert change_id) h = cc h

pub apply_change-revision :
    (s n : LiveAuthorityState) (c : AuthorityChange)
    → apply_change s c ≡ ok n
    → n.revision ≡ (s.revision + 1) % 2 ^ 64
unfolding apply_change next_revision
apply_change-revision s n c h = changed-revision _ n c h

apply_all-revision :
    (s n : LiveAuthorityState) (cs : List AuthorityChange)
    → apply_all s cs ≡ ok n
    → s.revision + length cs < 2 ^ 64
    → n.revision ≡ s.revision + length cs
unfolding apply_all
apply_all-revision s n [] h small = ground arith
apply_all-revision s n (c ∷ cs) h small =
    let (m, first, rest) = bind-ok (apply_change s c) _ n h in
    let one = apply_change-revision s m c first in
    let step : m.revision ≡ s.revision + 1 = omega arith in
    let all = apply_all-revision m n cs rest (omega arith) in omega arith

-- While the revision does not wrap, a change that was applied is reverted, after any later changes, to
-- exactly the state that it was applied to, with the next revision. Without later changes this
-- undoes it; with them, nothing of what they set is left.
pub apply_revert_change-apply_all :
    (s n m : LiveAuthorityState) (c : AuthorityChange) (cs : List AuthorityChange)
    (r : ChangeRecord)
    → apply_change s c ≡ ok n
    → apply_all n cs ≡ ok m
    → r.previous_state ≡ s
    → r.resulting_state ≡ n
    → s.revision + length cs + 2 < 2 ^ 64
    → apply_revert_change m r.change_id r ≡ ok (record s { revision = s.revision + length cs + 2 })
unfolding apply_revert_change next_revision
apply_revert_change-apply_all s n m c cs r first rest before after small =
    let one = apply_change-revision s n c first in
    let all = apply_all-revision n m cs rest (omega arith) in
    let newer : ltb m.revision r.resulting_state.revision ≡ false = rw after (ground arith) in
    let last : (m.revision + 1) % 2 ^ 64 ≡ s.revision + length cs + 2 = omega arith in
    rw (==_refl r.change_id) (rw newer (rw before (rw last refl)))
