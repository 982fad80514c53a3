-- ===== src/Prelude/Dicts.antt =====
-- Rust's maps as association lists: the order of the entries of a `HashMap` is arbitrary, and here it
-- is that of their first insertion.
use mathlib.Core.Path.{◌≡◌, refl}
use mathlib.Core.Bool.{Bool}
use mathlib.Core.Option.{Option, none, some}
use mathlib.Core.List.{List, [], ◌∷◌, map}
use native.Mathlib.Omega.{arith}
use multi.Prelude.Tests.{if◌then◌else◌, is_some, Bool-cases}
use multi.Prelude.Lists.{In}
use mathlib.Core.Path.{ap}
use mathlib.Core.Logic.{inl, inr}
use multi.Prelude.Equality.{Eq, ◌==◌, eq_of_==}

abbrev pub Dict {ℓ κ} : Type ℓ → Type κ → Type (ℓ ⊔ κ)
Dict K V = List (K × V)

module _ {ℓ κ} {K : Type ℓ} {V : Type κ} ⦃e : Eq K⦄ where
  unfoldable pub lookup : K → Dict K V → Option V
  lookup k [] = none
  lookup k ((j, v) ∷ d) = if j == k then some v else lookup k d

  unfoldable pub insert : K → V → Dict K V → Dict K V
  insert k v [] = (k, v) ∷ []
  insert k v ((j, w) ∷ d) = if j == k then (k, v) ∷ d else (j, w) ∷ insert k v d

  abbrev pub contains_key : K → Dict K V → Bool
  contains_key k d = is_some (lookup k d)

  abbrev pub NodupKeys : Dict K V → Type κ
  NodupKeys [] = Unit
  NodupKeys ((k, _) ∷ d) = (lookup k d ≡ none) × NodupKeys d

  pub lookup-insert :
      (k j : K) (v : V) (d : Dict K V)
      → lookup j (insert k v d) ≡ (if k == j then some v else lookup j d)
  unfolding lookup insert
  lookup-insert k j v [] = refl
  lookup-insert k j v ((i, w) ∷ d) = ground (arith, lookup-insert k j v d)

  pub lookup-insert_self : (k : K) (v : V) (d : Dict K V) → lookup k (insert k v d) ≡ some v
  lookup-insert_self k v d = ground (arith, lookup-insert k k v d)

  pub insert-NodupKeys : (k : K) (v : V) (d : Dict K V) → NodupKeys d → NodupKeys (insert k v d)
  unfolding insert lookup
  insert-NodupKeys k v [] h = (refl, tt)
  insert-NodupKeys k v ((j, w) ∷ d) h =
      ground (arith, insert-NodupKeys k v d h.1, lookup-insert k j v d)

module _ {K V : Type 0} ⦃e : Eq K⦄ where
  pub In_of_lookup : (k : K) (v : V) (d : Dict K V) → lookup k d ≡ some v → In (k, v) d
  unfolding lookup
  In_of_lookup k v [] h = cc
  In_of_lookup k v ((j, w) ∷ d) h = elim (Bool-cases (j == k)) [
    | inl same ↦ inl (ground arith)
    | inr other ↦ inr (In_of_lookup k v d (ground arith))
  ]

  pub lookup-none : (k : K) (v : V) (d : Dict K V) → lookup k d ≡ none → In (k, v) d → ⊥
  unfolding lookup
  lookup-none k v [] h m = m
  lookup-none k v ((j, w) ∷ d) h (inl m) = let same : j ≡ k = ap (λ p. p.0) m in ground arith
  lookup-none k v ((j, w) ∷ d) h (inr m) = lookup-none k v d (ground arith) m

  pub lookup-In : (k : K) (v : V) (d : Dict K V) → NodupKeys d → In (k, v) d → lookup k d ≡ some v
  unfolding lookup
  lookup-In k v [] n m = absurd m
  lookup-In k v ((j, w) ∷ d) n (inl m) =
      let same : j ≡ k = ap (λ p. p.0) m in let value : w ≡ v = ap (λ p. p.1) m in ground arith
  lookup-In k v ((j, w) ∷ d) n (inr m) = elim (Bool-cases (j == k)) [
    | inl same ↦ absurd (lookup-none j v d n.0 (rw (eq_of_== j k same) m))
    | inr other ↦ rw other (lookup-In k v d n.1 m)
  ]

  pub In-values : (d : Dict K V) (v : V) → In v (map (λ (k, w). w) d) → (k : K) × In (k, v) d
  In-values [] v m = absurd m
  In-values ((j, w) ∷ d) v (inl e) = (j, inl (λ i. (j, e i)))
  In-values ((j, w) ∷ d) v (inr m) = let (k, n) = In-values d v m in (k, inr n)

  pub In-values_of : (d : Dict K V) (k : K) (v : V) → In (k, v) d → In v (map (λ (k, w). w) d)
  In-values_of [] k v m = absurd m
  In-values_of ((j, w) ∷ d) k v (inl e) = inl (ap (λ p. p.1) e)
  In-values_of ((j, w) ∷ d) k v (inr m) = inr (In-values_of d k v m)
