-- ===== src/Runtime/Stateful.antt =====
-- Calls that change a state and may fail. What one call wrote stays written when a later one fails.
use multi.Prelude.{◌≡◌, refl, Result, ok, err}
use multi.Runtime.Errors.{AuthError}

abbrev pub Stateful : Type 0 → Type 0 → Type 0
Stateful S A = S → S × Result AuthError A

module _ {S A : Type 0} where
  abbrev pub pure : A → Stateful S A
  pure a s = (s, ok a)

  abbrev pub lift : Result AuthError A → Stateful S A
  lift r s = (s, r)

  -- A step that only reads the state.
  abbrev pub gets : (S → Result AuthError A) → Stateful S A
  gets f s = (s, f s)

module _ {S A B : Type 0} where
  abbrev pub continued : (A → Stateful S B) → S × Result AuthError A → S × Result AuthError B
  continued f (s, r) = elim r [ ok x ↦ f x s | err e ↦ (s, err e) ]

  infixl 5 ◌>>=◌
  abbrev pub ◌>>=◌ : Stateful S A → (A → Stateful S B) → Stateful S B
  ◌>>=◌ a f s = continued f (a s)

  continued-ok :
      (f : A → Stateful S B) (p : S × Result AuthError A) (b : B)
      → (continued f p).1 ≡ ok b
      → (x : A) × (p.1 ≡ ok x) × (continued f p ≡ f x p.0)
  continued-ok f (s, ok x) b h = (x, refl, refl)
  continued-ok f (s, err e) b h = cc

  -- A chain that succeeds succeeds in both parts.
  pub chain-ok :
      (a : Stateful S A) (f : A → Stateful S B) (s : S) (b : B)
      → ((a >>= f) s).1 ≡ ok b
      → (x : A) × ((a s).1 ≡ ok x) × ((a >>= f) s ≡ f x (a s).0)
  chain-ok a f s b h = continued-ok f (a s) b h

infixl 5 ◌>>◌
abbrev pub ◌>>◌ : {S B : Type 0} → Stateful S (Unit {0}) → Stateful S B → Stateful S B
a >> b = a >>= λ _. b
