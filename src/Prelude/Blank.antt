-- ===== src/Prelude/Blank.antt =====
-- Rust's white space, and what `trim` leaves.
use Prim.Native.Char.{Char, code}
use Prim.Native.Nat.{ℕ}
use Prim.Native.String.{String, [] as nothing, ◌∷◌ as ◌then◌}
use mathlib.Core.Bool.{Bool, true, false, ◌&&◌}
use mathlib.Core.List.{List, [], ◌∷◌}
use mathlib.Core.Path.{◌≡◌, refl}
use multi.Prelude.Tests.{leb, if◌then◌else◌}
use multi.Prelude.Lists.{any}

-- The first and the last character of each range of white space.
abbrev spaces : List (ℕ × ℕ)
spaces =
    (0x9, 0xd)
    ∷ (0x20, 0x20)
    ∷ (0x85, 0x85)
    ∷ (0xa0, 0xa0)
    ∷ (0x1680, 0x1680)
    ∷ (0x2000, 0x200a)
    ∷ (0x2028, 0x2029)
    ∷ (0x202f, 0x202f)
    ∷ (0x205f, 0x205f)
    ∷ (0x3000, 0x3000)
    ∷ []

-- `char::is_whitespace`, by the number of the character
unfoldable pub is_whitespace : ℕ → Bool
is_whitespace c = any (λ (first, last). leb first c && leb c last) spaces

unfoldable pub trim_start : String → String
unfolding is_whitespace
trim_start nothing = nothing
trim_start (c then s) = let rest = trim_start s in if is_whitespace (code c) then rest else c then s

unfoldable pub is_empty : String → Bool
is_empty nothing = true
is_empty (c then s) = false

before_space : Char → String → String
unfolding is_whitespace is_empty
before_space c rest = if is_whitespace (code c) && is_empty rest then nothing else c then rest

unfoldable pub trim_end : String → String
unfolding before_space
trim_end nothing = nothing
trim_end (c then s) = before_space c (trim_end s)

unfoldable pub trim : String → String
unfolding trim_start trim_end
trim s = trim_end (trim_start s)

trim_both : trim "  a b " ≡ "a b"
unfolding trim
trim_both = refl
