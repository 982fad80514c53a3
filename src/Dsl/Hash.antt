-- ===== src/Dsl/Hash.antt =====
-- crates/dsl/src/model.rs, `stable_hash`: FNV-1a with 64 bits, and the texts that are made of it.
use Prim.Native.Char.{code}
use Prim.Native.Nat.{bit_xor}
use Prim.Native.String.{[] as nothing, ◌∷◌ as ◌then◌, slice}
use multi.Prelude.{
  ℕ, zero, suc, ◌+◌, ◌*◌, ◌/◌, ◌%◌, ◌^◌, ◌<◌, String, ◌<>◌, List, [], ◌∷◌, ◌++◌, ◌≡◌, refl, ltb,
  if◌then◌else◌, arith,
}

-- The bytes of a character: every Rust text is UTF-8.
unfoldable pub utf8_of : ℕ → List ℕ
utf8_of c =
    if ltb c 0x80
    then c ∷ []
    else if ltb c 0x800
    then (0xc0 + c / 64) ∷ (0x80 + c % 64) ∷ []
    else if ltb c 0x10000
    then (0xe0 + c / 4096) ∷ (0x80 + c / 64 % 64) ∷ (0x80 + c % 64) ∷ []
    else (0xf0 + c / 262144) ∷ (0x80 + c / 4096 % 64) ∷ (0x80 + c / 64 % 64) ∷ (0x80 + c % 64) ∷ []

-- `as_bytes`
unfoldable pub as_bytes : String → List ℕ
unfolding utf8_of
as_bytes nothing = []
as_bytes (c then s) = utf8_of (code c) ++ as_bytes s

unfoldable pub hash_bytes : ℕ → List ℕ → ℕ
hash_bytes hash [] = hash
hash_bytes hash (byte ∷ bytes) = hash_bytes (bit_xor hash byte * 0x100000001b3 % 2 ^ 64) bytes

unfoldable pub stable_hash : List ℕ → ℕ
unfolding hash_bytes
stable_hash bytes = hash_bytes 0xcbf29ce484222325 bytes

-- The lowest `width` hexadecimal digits of a number, with zeros in front.
unfoldable pub hex : ℕ → ℕ → String
hex zero n = ""
hex (suc width) n = hex width (n / 16) <> slice "0123456789abcdef" (n % 16) (n % 16 + 1)

-- `format!("{:016x}", stable_hash(text.as_bytes()))`: a hash has at most 16 digits.
unfoldable pub hash_of : String → String
unfolding hex stable_hash as_bytes
hash_of text = hex 16 (stable_hash (as_bytes text))

hash_bytes-lt : (bytes : List ℕ) (hash : ℕ) → hash < 2 ^ 64 → hash_bytes hash bytes < 2 ^ 64
unfolding hash_bytes
hash_bytes-lt [] hash h = h
hash_bytes-lt (byte ∷ bytes) hash h =
    hash_bytes-lt bytes (bit_xor hash byte * 0x100000001b3 % 2 ^ 64) (omega arith)

-- The hash of any bytes is a 64-bit number, so that its 16 digits are all of it.
pub stable_hash-lt : (bytes : List ℕ) → stable_hash bytes < 2 ^ 64
unfolding stable_hash
stable_hash-lt bytes = hash_bytes-lt bytes 0xcbf29ce484222325 (omega arith)

hash_of_a : hash_of "a" ≡ "af63dc4c8601ec8c"
unfolding hash_of
hash_of_a = refl
