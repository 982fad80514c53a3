-- ===== src/Prelude/Text.antt =====
-- Texts that the program prints: decimal numbers, and Rust's `join`.
use Prim.Native.Nat.{ℕ, zero, suc, ◌+◌, ◌/◌, ◌%◌, ◌<◌}
use Prim.Native.String.{String, ◌++◌ as ◌<>◌, slice}
use mathlib.Core.Path.{◌≡◌, refl}
use mathlib.Core.Logic.{inl, inr}
use mathlib.Core.List.{List, [], ◌∷◌}
use native.Mathlib.Omega.{arith}
use multi.Prelude.Tests.{ltb, if◌then◌else◌, Bool-cases}
use multi.Prelude.Int.{ℤ, pos, negsuc}

digit : ℕ → String
digit d = slice "0123456789" d (d + 1)

-- The digits of `n` before `text`, on fuel: a number needs no more rounds than its value and one.
digits_before : ℕ → ℕ → String → String
digits_before zero n text = text
digits_before (suc fuel) n text =
    let next = digit (n % 10) <> text in
    let rest = digits_before fuel (n / 10) next in if ltb n 10 then next else rest

-- Any fuel above the number gives the same text.
digits_before_fuel :
    (f g n : ℕ) (text : String) → n < f → n < g → digits_before f n text ≡ digits_before g n text
unfolding digits_before
digits_before_fuel zero g n text h k = elim h [ ]
digits_before_fuel (suc f) zero n text h k = elim k [ ]
digits_before_fuel (suc f) (suc g) n text h k = elim (Bool-cases (ltb n 10)) [
  | inl small ↦ rw small
  | inr large ↦
      rw large
        (digits_before_fuel f g (n / 10) (digit (n % 10) <> text) (ground arith) (ground arith))
]

unfoldable pub show_ℕ : ℕ → String
unfolding digits_before digit
show_ℕ n = digits_before (suc n) n ""

unfoldable pub show_ℤ : ℤ → String
unfolding show_ℕ
show_ℤ (pos n) = show_ℕ n
show_ℤ (negsuc n) = "-" <> show_ℕ (suc n)

-- `parts.join(separator)`.
unfoldable pub join : String → List String → String
join separator [] = ""
join separator (x ∷ []) = x
join separator (x ∷ y ∷ rest) = x <> separator <> join separator (y ∷ rest)

show_negative : show_ℤ (negsuc 1208) ≡ "-1209"
unfolding show_ℤ
show_negative = refl
