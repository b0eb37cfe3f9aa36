-- ===== src/Crypto/Reference.antt =====
-- Base64 without padding as RFC 4648 describes it, group by group, and the proof that the loops of
-- crypto_argon2.cpp compute it.
use evo_runtime.Common.{
  ℕ, suc, ◌+◌, ◌*◌, ◌/◌, ◌%◌, ◌^◌, ◌≤◌, ◌<◌, ◌≡◌, refl, ap, sym, ◌∙◌, true, false, some, List, [],
  ◌∷◌, ◌++◌, leb, ◌==◌, length, drop, All, arith, ◌⊎◌, inl, inr, Bool-cases, leb→le, length-append,
}
use evo_runtime.Common.Bytes.{Bytes}
use evo_runtime.Crypto.Alphabet.{b64_byte_to_char}
use evo_runtime.Crypto.Base64.{
  invalid_size, encoded_length, write_sextets, write_last, encode_chars, write_out,
  argon2_to_base64,
}

abbrev pub IsBytes : Bytes → Type 0
IsBytes = All (λ b. b < 256)

-- A group of three bytes is four numbers of six bits; the rest is filled up with zeros.
unfoldable pub sextets : Bytes → List ℕ
sextets [] = []
sextets (a ∷ []) = a / 4 ∷ a % 4 * 16 ∷ []
sextets (a ∷ b ∷ []) = a / 4 ∷ (a % 4 * 16 + b / 16) ∷ b % 16 * 4 ∷ []
sextets (a ∷ b ∷ c ∷ rest) =
    a / 4 ∷ (a % 4 * 16 + b / 16) ∷ (b % 16 * 4 + c / 64) ∷ c % 64 ∷ sextets rest

abbrev pub chars_of : List ℕ → Bytes
chars_of [] = []
chars_of (x ∷ xs) = b64_byte_to_char x ∷ chars_of xs

-- The numbers of a group, read off an accumulator that has the group in its last 24 bits.
group_sextets :
    (acc a b c n : ℕ)
    → n ≡ (acc * 16777216 + a * 65536 + b * 256 + c) % 4294967296
    → a < 256
    → b < 256
    → c < 256
    → (n / 262144 % 64 ≡ a / 4)
      × (n / 4096 % 64 ≡ a % 4 * 16 + b / 16)
      × (n / 64 % 64 ≡ b % 16 * 4 + c / 64)
      × (n / 1 % 64 ≡ c % 64)
group_sextets acc a b c n e ha hb hc = (omega arith, omega arith, omega arith, omega arith)

four_chars :
    (n w x y z : ℕ) (chars more : Bytes)
    → (n / 262144 % 64 ≡ w) × (n / 4096 % 64 ≡ x) × (n / 64 % 64 ≡ y) × (n / 1 % 64 ≡ z)
    → chars ≡ more
    → b64_byte_to_char (n / 262144 % 64)
        ∷ b64_byte_to_char (n / 4096 % 64)
        ∷ b64_byte_to_char (n / 64 % 64)
        ∷ b64_byte_to_char (n / 1 % 64)
        ∷ chars
      ≡ b64_byte_to_char w ∷ b64_byte_to_char x ∷ b64_byte_to_char y ∷ b64_byte_to_char z ∷ more
four_chars n w x y z chars more (e, f, g, h) same = rw (e, f, g, h, same)

three_chars :
    (acc a b n m : ℕ)
    → n ≡ (acc * 256 + a) % 4294967296
    → m ≡ (n * 256 + b) % 4294967296
    → a < 256
    → b < 256
    → b64_byte_to_char (n / 4 % 64)
        ∷ b64_byte_to_char (m / 16 % 64)
        ∷ b64_byte_to_char (m * 4 % 4294967296 % 64)
        ∷ []
      ≡ chars_of (a / 4 ∷ (a % 4 * 16 + b / 16) ∷ b % 16 * 4 ∷ [])
three_chars acc a b n m e f ha hb = rw (first, second, third)
  where
    first : n / 4 % 64 ≡ a / 4
    first = omega (arith, e, ha)

    second : m / 16 % 64 ≡ a % 4 * 16 + b / 16
    second = omega (arith, e, f, ha, hb)

    third : m * 4 % 4294967296 % 64 ≡ b % 16 * 4
    third = omega (arith, f, hb)

two_chars :
    (acc a n : ℕ)
    → n ≡ (acc * 256 + a) % 4294967296
    → a < 256
    → b64_byte_to_char (n / 4 % 64) ∷ b64_byte_to_char (n * 16 % 4294967296 % 64) ∷ []
      ≡ chars_of (a / 4 ∷ a % 4 * 16 ∷ [])
two_chars acc a n e ha = rw (first, second)
  where
    first : n / 4 % 64 ≡ a / 4
    first = omega (arith, e, ha)

    second : n * 16 % 4294967296 % 64 ≡ a % 4 * 16
    second = omega (arith, e, ha)

-- Whatever the accumulator holds from the groups before, the loops write the characters of the
-- reference.
pub encode_chars_lem :
    (src : Bytes) (acc : ℕ) → IsBytes src → encode_chars src acc 0 ≡ chars_of (sextets src)
unfolding encode_chars sextets write_sextets write_last
encode_chars_lem [] acc h = refl
encode_chars_lem (a ∷ []) acc h = two_chars acc a ((acc * 256 + a) % 4294967296) refl h.0
encode_chars_lem (a ∷ b ∷ []) acc h =
    three_chars acc a b ((acc * 256 + a) % 4294967296)
      (((acc * 256 + a) % 4294967296 * 256 + b) % 4294967296) refl refl h.0 h.1.0
encode_chars_lem (a ∷ b ∷ c ∷ rest) acc h =
    four_chars n _ _ _ _ (encode_chars rest n 0) (chars_of (sextets rest))
      (group_sextets acc a b c n refl h.0 h.1.0 h.1.1.0) (encode_chars_lem rest n h.1.1.1)
  where
    n : ℕ
    n = (acc * 16777216 + a * 65536 + b * 256 + c) % 4294967296

pub length-chars_of : (xs : List ℕ) → length (chars_of xs) ≡ length xs
length-chars_of [] = refl
length-chars_of (x ∷ xs) = ap suc (length-chars_of xs)

encoded_length-group :
    (n : ℕ)
    → n < 2 ^ 62
    → encoded_length (suc (suc (suc n))) ≡ suc (suc (suc (suc (encoded_length n))))
unfolding encoded_length
encoded_length-group n h =
    rw (quotient, remainder)
      (elim (Bool-cases (n % 3 == 2)) [
        | inl e ↦ rw e (omega (arith, h))
        | inr e ↦ rw e (elim (Bool-cases (n % 3 == 1)) [
          | inl f ↦ rw f (omega (arith, h))
          | inr f ↦ rw f (omega (arith, h))
        ])
      ])
  where
    quotient : suc (suc (suc n)) / 3 ≡ suc (n / 3)
    quotient = omega arith

    remainder : suc (suc (suc n)) % 3 ≡ n % 3
    remainder = omega arith

pub length-sextets :
    (src : Bytes) → length src < 2 ^ 62 → encoded_length (length src) ≡ length (sextets src)
unfolding encoded_length sextets
length-sextets [] h = refl
length-sextets (a ∷ []) h = refl
length-sextets (a ∷ b ∷ []) h = refl
length-sextets (a ∷ b ∷ c ∷ rest) h =
    encoded_length-group (length rest) (omega (arith, h))
    ∙ ap (λ n. suc (suc (suc (suc n)))) (length-sextets rest (omega (arith, h)))

-- `argon2_to_base64` refuses a buffer without room for the encoding and its NUL, and otherwise
-- writes the encoding of the reference, a NUL, and nothing else, and returns the encoding's length,
-- where the source has bytes, fewer than 2^62, and the buffer is as long as the caller says.
pub argon2_to_base64_lem :
    (dst src : Bytes) (dst_len : ℕ)
    → IsBytes src
    → length src < 2 ^ 62
    → dst_len ≤ length dst
    → let chars = chars_of (sextets src) in
      ((dst_len ≤ length chars) × (argon2_to_base64 dst dst_len src ≡ some (invalid_size, dst)))
      ⊎ ((length chars < dst_len)
          × (argon2_to_base64 dst dst_len src
              ≡ some (length chars, (chars ++ 0 ∷ []) ++ drop (suc (length chars)) dst)))
unfolding argon2_to_base64 write_out
argon2_to_base64_lem dst src dst_len bytes small room =
    elim (Bool-cases (leb dst_len (length chars))) [
      | inl e ↦ inl (leb→le dst_len (length chars) e, rw olen (rw e refl))
      | inr e ↦ inr (
        ground (arith, e),
        rw (olen, encode_chars_lem src 0 bytes) (rw e (rw (total, fits e) refl)),
      )
    ]
  where
    chars : Bytes
    chars = chars_of (sextets src)

    olen : encoded_length (length src) ≡ length chars
    olen = length-sextets src small ∙ sym (length-chars_of (sextets src))

    total : length (chars ++ 0 ∷ []) ≡ suc (length chars)
    total = omega (arith, length-append chars (0 ∷ []))

    fits : leb dst_len (length chars) ≡ false → leb (suc (length chars)) (length dst) ≡ true
    fits e = ground (arith, e, room)
