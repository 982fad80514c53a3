-- ===== src/Prelude/Parsing.antt =====
-- Rust's `parse` of a text as an integer.
use Prim.Native.Char.{Char, code}
use Prim.Native.Nat.{ℕ, zero, suc, ◌+◌, ◌-◌, ◌*◌, ◌^◌}
use Prim.Native.String.{String, [] as nothing, ◌∷◌ as ◌then◌}
use mathlib.Core.Bool.{Bool, ◌&&◌}
use mathlib.Core.Option.{Option, none, some}
use mathlib.Core.Path.{◌≡◌, refl}
use multi.Prelude.Int.{ℤ, pos, negsuc}
use multi.Prelude.Tests.{leb, if◌then◌else◌}

-- `checked_mul` and `checked_add` of one more digit, for the numbers up to `limit`
with_digit : ℕ → ℕ → Char → Option ℕ
with_digit limit n c =
    let next = n * 10 + (code c - 48) in
    if leb 48 (code c) && leb (code c) 57 && leb next limit then some next else none

digits_from : ℕ → Option ℕ → String → Option ℕ
unfolding with_digit
digits_from limit none s = none
digits_from limit (some n) nothing = some n
digits_from limit (some n) (c then s) = digits_from limit (with_digit limit n c) s

is_code : ℕ → Char → Bool
is_code n c = leb n (code c) && leb (code c) n

-- One digit or more.
unsigned : ℕ → String → Option ℕ
unfolding digits_from
unsigned limit nothing = none
unsigned limit (c then s) = digits_from limit (some 0) (c then s)

unfoldable pub parse_u64 : String → Option ℕ
unfolding unsigned is_code
parse_u64 nothing = none
parse_u64 (c then s) =
    if is_code 43 c then unsigned (2 ^ 64 - 1) s else unsigned (2 ^ 64 - 1) (c then s)

positive : Option ℕ → Option ℤ
positive none = none
positive (some n) = some (pos n)

negative : Option ℕ → Option ℤ
negative none = none
negative (some zero) = some (pos zero)
negative (some (suc n)) = some (negsuc n)

unfoldable pub parse_i64 : String → Option ℤ
unfolding unsigned is_code positive negative
parse_i64 nothing = none
parse_i64 (c then s) =
    if is_code 45 c
    then negative (unsigned (2 ^ 63) s)
    else if is_code 43 c
    then positive (unsigned (2 ^ 63 - 1) s)
    else positive (unsigned (2 ^ 63 - 1) (c then s))

largest : parse_i64 "+9223372036854775807" ≡ some (pos 9223372036854775807)
unfolding parse_i64
largest = refl

too_small : parse_i64 "-9223372036854775809" ≡ none
unfolding parse_i64
too_small = refl
