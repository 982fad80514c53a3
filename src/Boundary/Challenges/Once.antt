-- ===== src/Boundary/Challenges/Once.antt =====
-- A challenge is consumed at most once.
use multi.Prelude.{
  String, true, false, Option, none, some, List, [], ◌∷◌, All, ◌≡◌, refl, ◌∙◌, sym, ap, inl, inr,
  lookup, insert, lookup-insert, lookup-insert_self, ◌==◌, eq_of_==, string_eq, ℤ, Result, ok, err,
  arith, Bool-cases,
}
use multi.Boundary.Challenges.{
  Challenge, CeremonyKind, ceremony_kind_eq, Operation, Store, is_refused, issue, settled,
  consume_found, consume_with, revoke_found, revoke,
}

-- The calls of the store.
pub data Call (W : Type 0) : Type 0 where
  issues : String → CeremonyKind → String → String → ℤ → Call W
  consumes : String → CeremonyKind → ℤ → Operation W → Call W
  revokes : String → Call W

-- The challenge under the digest is consumed.
record IsSpent (key : String) (s : Store) : Type 0 where
  challenge : Challenge
  found : lookup key s ≡ some challenge
  consumed : challenge.consumed ≡ true

insert-IsSpent :
    (key j : String) (c : Challenge) (s : Store)
    → IsSpent key s
    → ((j == key) ≡ true → c.consumed ≡ true)
    → IsSpent key (insert j c s)
insert-IsSpent key j c s h keep = elim (Bool-cases (j == key)) [
  | inl same ↦ record {
    challenge = c;
    found = lookup-insert j key c s ∙ rw same refl;
    consumed = keep same;
  }
  | inr other ↦ record {
    challenge = h.challenge;
    found = lookup-insert j key c s ∙ rw other h.found;
    consumed = h.consumed;
  }
]

-- At the digest that is spent, what is found is consumed.
found-consumed :
    (key j : String) (c : Challenge) (s : Store)
    → IsSpent key s
    → lookup j s ≡ some c
    → (j == key) ≡ true
    → c.consumed ≡ true
found-consumed key j c s h k same =
    let found : lookup key s ≡ some c = ap (λ i. lookup i s) (sym (eq_of_== j key same)) ∙ k in
    let one : h.challenge ≡ c = ground (arith, h.found, found) in
    ap (λ c. c.consumed) (sym one) ∙ h.consumed

module _ (digest : String → String) where
  revoke_found-IsSpent :
      (key : String) (s : Store) (token : String) (o : Option Challenge)
      → lookup (digest token) s ≡ o
      → IsSpent key s
      → IsSpent key (revoke_found digest s token o).0
  unfolding revoke_found
  revoke_found-IsSpent key s token none e h = h
  revoke_found-IsSpent key s token (some c) e h =
      insert-IsSpent key (digest token) (record c { revoked = true }) s h
        (found-consumed key (digest token) c s h e)

module _ (digest : String → String) {W : Type 0} where
  settled-IsSpent :
      (key : String) (s : Store) (token : String) (c : Challenge) (r : W × Result String (Unit {0}))
      → IsSpent key s
      → IsSpent key (settled digest s token c r).0.0
  unfolding settled
  settled-IsSpent key s token c (w, err e) h = h
  settled-IsSpent key s token c (w, ok t) h = insert-IsSpent key (digest token) _ s h (λ same. refl)

  consume_found-IsSpent :
      (key : String) (s : Store) (w : W) (token : String) (kind : CeremonyKind) (now : ℤ)
      (operation : Operation W) (o : Option Challenge)
      → IsSpent key s
      → IsSpent key (consume_found digest s w token kind now operation o).0.0
  unfolding consume_found
  consume_found-IsSpent key s w token kind now operation none h = h
  consume_found-IsSpent key s w token kind now operation (some c) h =
      elim (Bool-cases (is_refused c kind now)) [
        | inl refused ↦ rw refused h
        | inr live ↦ rw live (settled-IsSpent key s token c (operation c.tenant c.account w) h)
      ]

  unfoldable pub step : Store × W → Call W → Store × W
  unfolding issue consume_with revoke
  step (s, w) (issues token kind tenant account expires_at) =
      (issue digest s token kind tenant account expires_at, w)
  step (s, w) (consumes token kind now operation) =
      (consume_with digest s w token kind now operation).0
  step (s, w) (revokes token) = ((revoke digest s token).0, w)

  unfoldable pub run : Store × W → List (Call W) → Store × W
  unfolding step
  run p [] = p
  run p (c ∷ cs) = run (step p c) cs

  -- The call issues no token with the digest.
  abbrev pub Spares : String → Call W → Type 0
  Spares key (issues token kind tenant account expires_at) = (digest token == key) ≡ false
  Spares key (consumes token kind now operation) = Unit
  Spares key (revokes token) = Unit

  step-IsSpent :
      (key : String) (p : Store × W) (c : Call W)
      → Spares key c
      → IsSpent key p.0
      → IsSpent key (step p c).0
  unfolding step issue consume_with revoke
  step-IsSpent key (s, w) (issues token kind tenant account expires_at) spares h =
      insert-IsSpent key (digest token) _ s h (λ same. cc (same, spares))
  step-IsSpent key (s, w) (consumes token kind now operation) spares h =
      consume_found-IsSpent key s w token kind now operation (lookup (digest token) s) h
  step-IsSpent key (s, w) (revokes token) spares h =
      revoke_found-IsSpent digest key s token (lookup (digest token) s) refl h

  run-IsSpent :
      (key : String) (p : Store × W) (cs : List (Call W))
      → All (Spares key) cs
      → IsSpent key p.0
      → IsSpent key (run p cs).0
  unfolding run
  run-IsSpent key p [] spares h = h
  run-IsSpent key p (c ∷ cs) spares h =
      run-IsSpent key (step p c) cs spares.1 (step-IsSpent key p c spares.0 h)

  settled-spends :
      (s : Store) (token : String) (c : Challenge) (r : W × Result String (Unit {0}))
      → (settled digest s token c r).1 ≡ ok tt
      → IsSpent (digest token) (settled digest s token c r).0.0
  unfolding settled
  settled-spends s token c (w, err e) h = cc h
  settled-spends s token c (w, ok t) h = record {
    challenge = record c { consumed = true };
    found = lookup-insert_self (digest token) (record c { consumed = true }) s;
    consumed = refl;
  }

  consume_found-spends :
      (s : Store) (w : W) (token : String) (kind : CeremonyKind) (now : ℤ) (operation : Operation W)
      (o : Option Challenge)
      → (consume_found digest s w token kind now operation o).1 ≡ ok tt
      → IsSpent (digest token) (consume_found digest s w token kind now operation o).0.0
  unfolding consume_found
  consume_found-spends s w token kind now operation none h = cc h
  consume_found-spends s w token kind now operation (some c) h =
      elim (Bool-cases (is_refused c kind now)) [
        | inl refused ↦
            let k : Result.err "invalid or expired recovery challenge" ≡ Result.ok tt =
              rw refused at h in
            cc k
        | inr live ↦
            rw live (settled-spends s token c (operation c.tenant c.account w) (rw live at h))
      ]

  spent-refused :
      (s : Store) (w : W) (token : String) (kind : CeremonyKind) (now : ℤ) (operation : Operation W)
      → IsSpent (digest token) s
      → consume_with digest s w token kind now operation
        ≡ ((s, w), err "invalid or expired recovery challenge")
  unfolding consume_with consume_found is_refused
  spent-refused s w token kind now operation h =
      let closed : is_refused h.challenge kind now ≡ true = ground (arith, h.consumed) in
      rw h.found (rw closed refl)

  -- Once a token was consumed with success, then after any calls that issue no token with its digest, at
  -- any time and for any ceremony, consuming it again is refused, and neither the store nor what
  -- the operation changes is touched.
  pub consume_with-once :
      (s : Store) (w : W) (token : String) (kind again : CeremonyKind) (now later : ℤ)
      (operation other : Operation W) (calls : List (Call W))
      → (consume_with digest s w token kind now operation).1 ≡ ok tt
      → All (Spares (digest token)) calls
      → consume_with digest
          (run (consume_with digest s w token kind now operation).0 calls).0
          (run (consume_with digest s w token kind now operation).0 calls).1
          token
          again
          later
          other
        ≡ (
          run (consume_with digest s w token kind now operation).0 calls,
          err "invalid or expired recovery challenge",
        )
  unfolding consume_with
  consume_with-once s w token kind again now later operation other calls h spares =
      let p = (consume_with digest s w token kind now operation).0 in
      let spent =
        run-IsSpent (digest token) p calls spares
          (consume_found-spends s w token kind now operation (lookup (digest token) s) h) in
      spent-refused (run p calls).0 (run p calls).1 token again later other spent
