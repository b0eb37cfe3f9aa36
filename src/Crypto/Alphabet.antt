-- ===== src/Crypto/Alphabet.antt =====
-- Runtime/Bindings/FFI/crypto/crypto_argon2.cpp and crypto_argon2.hpp: the 64 characters, and the
-- comparisons without branches by which a character is turned back into its number.
use Prim.Native.Nat.{bit_and, bit_or, bit_xor}
use evo_runtime.Common.{
  ℕ, zero, suc, ◌+◌, ◌-◌, ◌/◌, ◌%◌, ◌^◌, ◌<◌, ◌≡◌, refl, Bool, true, ◌&&◌, ◌||◌, [], ◌∷◌, arith,
  if◌then◌else◌, ltb, ◌==◌, ==_iff, Bool-cases, inl, inr, ◌≤◌,
}
use evo_runtime.Common.Bytes.{Bytes, codes}

abbrev pub base64_chars : Bytes
base64_chars = codes "ABCDEFGHIJKLMNOPQRSTUVWXYZabcdefghijklmnopqrstuvwxyz0123456789+/"

-- `x[i]` of an array that a NUL ends; no index is behind it.
abbrev pub char_at : Bytes → ℕ → ℕ
char_at [] i = 0
char_at (c ∷ x) zero = c
char_at (c ∷ x) (suc i) = char_at x i

unfoldable pub b64_byte_to_char : ℕ → ℕ
b64_byte_to_char x = char_at base64_chars x

-- `x - y` on unsigned.
abbrev pub sub_unsigned : ℕ → ℕ → ℕ
sub_unsigned x y = (x + 2 ^ 32 - y) % 2 ^ 32

-- The macros EQ, GT, GE and LE: 0xFF if they hold, and 0 otherwise.
abbrev pub eq_mask : ℕ → ℕ → ℕ
eq_mask x y = bit_xor (bit_and (sub_unsigned 0 (bit_xor x y) / 2 ^ 8) 255) 255

abbrev pub gt_mask : ℕ → ℕ → ℕ
gt_mask x y = bit_and (sub_unsigned y x / 2 ^ 8) 255

abbrev pub ge_mask : ℕ → ℕ → ℕ
ge_mask x y = bit_xor (gt_mask y x) 255

abbrev pub le_mask : ℕ → ℕ → ℕ
le_mask x y = ge_mask y x

-- A `char`, which is signed, as an unsigned number.
abbrev pub from_char : ℕ → ℕ
from_char c = if ltb c 128 then c else c + (2 ^ 32 - 2 ^ 8)

unfoldable pub b64_char_to_byte : ℕ → ℕ
b64_char_to_byte c =
    let x = bit_or (bit_and (bit_and (ge_mask c 65) (le_mask c 90)) (sub_unsigned c 65)) (
      bit_or (bit_and (bit_and (ge_mask c 97) (le_mask c 122)) (sub_unsigned c 71)) (
        bit_or (bit_and (bit_and (ge_mask c 48) (le_mask c 57)) (c + 4))
          (bit_or (bit_and (eq_mask c 43) 62) (bit_and (eq_mask c 47) 63)))) in
    bit_or x (bit_and (eq_mask x 0) (bit_xor (eq_mask c 65) 255))

-- A test of the numbers below a bound.
abbrev every_below : ℕ → (ℕ → Bool) → Bool
every_below zero test = true
every_below (suc n) test = test n && every_below n test

every_below-at :
    (n : ℕ) (test : ℕ → Bool) (i : ℕ) → every_below n test ≡ true → i < n → test i ≡ true
every_below-at zero test i h k = absurd (omega (arith, k))
every_below-at (suc n) test i h k = elim (Bool-cases (i == n)) [
  | inl e ↦ rw ((==_iff i n).0 e) (ground (arith, h))
  | inr e ↦ every_below-at n test i (ground (arith, h)) (ground (arith, e, k))
]

returns : ℕ → Bool
returns x = b64_char_to_byte (from_char (b64_byte_to_char x)) == x

canonical : ℕ → Bool
canonical c = let d = b64_char_to_byte (from_char c) in ltb 63 d || b64_byte_to_char d == c

foreign : ℕ → Bool
foreign c = ltb c 128 || b64_char_to_byte (from_char c) == 63

all_sextets : every_below 64 returns ≡ true
unfolding b64_char_to_byte b64_byte_to_char returns canonical
all_sextets = refl

all_ascii : every_below 128 canonical ≡ true
unfolding b64_char_to_byte b64_byte_to_char returns canonical
all_ascii = refl

all_others : every_below 256 foreign ≡ true
unfolding b64_char_to_byte foreign
all_others = refl

-- A character is turned back into its number.
pub b64_char_to_byte-b64_byte_to_char :
    (x : ℕ) → x < 64 → b64_char_to_byte (from_char (b64_byte_to_char x)) ≡ x
unfolding returns
b64_char_to_byte-b64_byte_to_char x h = (==_iff _ x).0 (every_below-at 64 returns x all_sextets h)

-- The end of a string is not one of the characters.
pub b64_char_to_byte-nul : 63 < b64_char_to_byte (from_char 0)
unfolding b64_char_to_byte
b64_char_to_byte-nul = omega arith

-- An ASCII character with a value is the character of that value.
pub b64_byte_to_char-b64_char_to_byte :
    (c : ℕ)
    → c < 128
    → b64_char_to_byte (from_char c) ≤ 63
    → b64_byte_to_char (b64_char_to_byte (from_char c)) ≡ c
unfolding canonical
b64_byte_to_char-b64_char_to_byte c h k = ground (arith, every_below-at 128 canonical c all_ascii h)

-- Every byte that is not ASCII has the value of the last character, because it is negative.
pub b64_char_to_byte-other : (c : ℕ) → 128 ≤ c → c < 256 → b64_char_to_byte (from_char c) ≡ 63
unfolding foreign
b64_char_to_byte-other c h k = ground (arith, every_below-at 256 foreign c all_others k)
