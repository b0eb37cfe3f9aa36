-- ===== src/Crypto/RoundTrip.antt =====
-- crypto_argon2.cpp: what was encoded is decoded again.
use evo_runtime.Common.{
  ℕ, zero, suc, ◌+◌, ◌-◌, ◌*◌, ◌/◌, ◌%◌, ◌^◌, ◌≤◌, ◌<◌, ◌≡◌, refl, ap, sym, ◌∙◌, false, some, [],
  ◌∷◌, ◌++◌, ltb, ◌==◌, length, drop, arith, inl, inr, append_assoc, le→leb,
}
use evo_runtime.Common.Bytes.{Bytes}
use evo_runtime.Crypto.Alphabet.{
  b64_byte_to_char, b64_char_to_byte, from_char, b64_char_to_byte-b64_byte_to_char,
  b64_char_to_byte-nul,
}
use evo_runtime.Crypto.Base64.{
  write_out, argon2_to_base64, Decoded, written_before, check_rest, decode_chars, decoded_result,
  argon2_from_base64,
}
use evo_runtime.Crypto.Reference.{IsBytes, sextets, chars_of, length-chars_of, argon2_to_base64_lem}

nonzero : (n : ℕ) → (suc n == 0) ≡ false
nonzero n = ground arith

pred : (n : ℕ) → suc n - 1 ≡ n
pred n = omega arith

-- The loop's round for the character of a number, by how many bits are left over: with none the
-- number is kept, and with six, four or two a byte is written.
module _ (x acc room : ℕ) (rest : Bytes) (small : x < 64) where
  back : b64_char_to_byte (from_char (b64_byte_to_char x)) ≡ x
  back = b64_char_to_byte-b64_byte_to_char x small

  valid_digit : ltb 63 x ≡ false
  valid_digit = ground (arith, small)

  decode_none :
      decode_chars (b64_byte_to_char x ∷ rest) acc 0 room
      ≡ decode_chars rest ((acc * 64 + x) % 4294967296) 6 room
  unfolding decode_chars
  decode_none = rw (back, valid_digit) refl

  decode_six :
      decode_chars (b64_byte_to_char x ∷ rest) acc 6 (suc room)
      ≡ written_before
          ((acc * 64 + x) % 4294967296 / 16 % 256)
          (decode_chars rest ((acc * 64 + x) % 4294967296) 4 room)
  unfolding decode_chars
  decode_six = rw (back, valid_digit, nonzero room, pred room) refl

  decode_four :
      decode_chars (b64_byte_to_char x ∷ rest) acc 4 (suc room)
      ≡ written_before
          ((acc * 64 + x) % 4294967296 / 4 % 256)
          (decode_chars rest ((acc * 64 + x) % 4294967296) 2 room)
  unfolding decode_chars
  decode_four = rw (back, valid_digit, nonzero room, pred room) refl

  decode_two :
      decode_chars (b64_byte_to_char x ∷ rest) acc 2 (suc room)
      ≡ written_before
          ((acc * 64 + x) % 4294967296 / 1 % 256)
          (decode_chars rest ((acc * 64 + x) % 4294967296) 0 room)
  unfolding decode_chars
  decode_two = rw (back, valid_digit, nonzero room, pred room) refl

decode_nul :
    (acc acc_len room : ℕ) (more : Bytes)
    → decode_chars (0 ∷ more) acc acc_len room ≡ check_rest acc acc_len
unfolding decode_chars
decode_nul acc acc_len room more = ground (arith, b64_char_to_byte-nul)

abbrev after_digit : ℕ → ℕ → ℕ
after_digit acc x = (acc * 64 + x) % 4294967296

-- The three bytes that a group's characters write, whatever the accumulator holds before.
group_bytes :
    (acc a b c : ℕ)
    → a < 256
    → b < 256
    → c < 256
    → let acc1 = after_digit acc (a / 4) in
      let acc2 = after_digit acc1 (a % 4 * 16 + b / 16) in
      let acc3 = after_digit acc2 (b % 16 * 4 + c / 64) in
      (acc2 / 16 % 256 ≡ a) × (acc3 / 4 % 256 ≡ b) × (after_digit acc3 (c % 64) / 1 % 256 ≡ c)
group_bytes acc a b c ha hb hc = (omega arith, omega arith, omega arith)

decode_group :
    (acc a b c room : ℕ) (rest : Bytes)
    → a < 256
    → b < 256
    → c < 256
    → decode_chars
        (b64_byte_to_char (a / 4)
          ∷ b64_byte_to_char (a % 4 * 16 + b / 16)
          ∷ b64_byte_to_char (b % 16 * 4 + c / 64)
          ∷ b64_byte_to_char (c % 64)
          ∷ rest)
        acc
        0
        (suc (suc (suc room)))
      ≡ written_before a (
          written_before b (
            written_before c (
              decode_chars rest
                (after_digit
                  (after_digit
                    (after_digit (after_digit acc (a / 4)) (a % 4 * 16 + b / 16))
                    (b % 16 * 4 + c / 64))
                  (c % 64))
                0
                room)))
decode_group acc a b c room rest ha hb hc = rw (
  decode_none (a / 4) acc (suc (suc (suc room))) _ (omega (arith, ha)),
  decode_six (a % 4 * 16 + b / 16) acc1 (suc (suc room)) _ (omega (arith, hb)),
  decode_four (b % 16 * 4 + c / 64) acc2 (suc room) _ (omega (arith, hc)),
  decode_two (c % 64) acc3 room rest (omega arith),
  bytes.0,
  bytes.1,
  bytes.2,
)
  where
    acc1 : ℕ
    acc1 = after_digit acc (a / 4)

    acc2 : ℕ
    acc2 = after_digit acc1 (a % 4 * 16 + b / 16)

    acc3 : ℕ
    acc3 = after_digit acc2 (b % 16 * 4 + c / 64)

    bytes : (acc2 / 16 % 256 ≡ a) × (acc3 / 4 % 256 ≡ b) × (after_digit acc3 (c % 64) / 1 % 256 ≡ c)
    bytes = group_bytes acc a b c ha hb hc

check_rest_zero :
    (acc acc_len : ℕ)
    → acc_len ≤ 4
    → acc % 2 ^ acc_len ≡ 0
    → check_rest acc acc_len ≡ Decoded.valid []
unfolding check_rest
check_rest_zero acc acc_len h e = rw e (ground (arith, h))

decode_one :
    (acc a room : ℕ) (more : Bytes)
    → a < 256
    → decode_chars
        (b64_byte_to_char (a / 4) ∷ b64_byte_to_char (a % 4 * 16) ∷ 0 ∷ more)
        acc
        0
        (suc room)
      ≡ Decoded.valid (a ∷ [])
decode_one acc a room more ha = rw (
  decode_none (a / 4) acc (suc room) _ (omega (arith, ha)),
  decode_six (a % 4 * 16) acc1 room (0 ∷ more) (omega arith),
  decode_nul acc2 4 room more,
  check_rest_zero acc2 4 (omega arith) left,
  byte,
)
  where
    acc1 : ℕ
    acc1 = after_digit acc (a / 4)

    acc2 : ℕ
    acc2 = after_digit acc1 (a % 4 * 16)

    byte : acc2 / 16 % 256 ≡ a
    byte = omega (arith, ha)

    left : acc2 % 16 ≡ 0
    left = omega arith

decode_pair :
    (acc a b room : ℕ) (more : Bytes)
    → a < 256
    → b < 256
    → decode_chars
        (b64_byte_to_char (a / 4)
          ∷ b64_byte_to_char (a % 4 * 16 + b / 16)
          ∷ b64_byte_to_char (b % 16 * 4)
          ∷ 0
          ∷ more)
        acc
        0
        (suc (suc room))
      ≡ Decoded.valid (a ∷ b ∷ [])
decode_pair acc a b room more ha hb = rw (
  decode_none (a / 4) acc (suc (suc room)) _ (omega (arith, ha)),
  decode_six (a % 4 * 16 + b / 16) acc1 (suc room) _ (omega (arith, hb)),
  decode_four (b % 16 * 4) acc2 room (0 ∷ more) (omega arith),
  decode_nul acc3 2 room more,
  check_rest_zero acc3 2 (omega arith) left,
  first,
  second,
)
  where
    acc1 : ℕ
    acc1 = after_digit acc (a / 4)

    acc2 : ℕ
    acc2 = after_digit acc1 (a % 4 * 16 + b / 16)

    acc3 : ℕ
    acc3 = after_digit acc2 (b % 16 * 4)

    first : acc2 / 16 % 256 ≡ a
    first = omega (arith, ha, hb)

    second : acc3 / 4 % 256 ≡ b
    second = omega (arith, ha, hb)

    left : acc3 % 4 ≡ 0
    left = omega arith

-- The loop gives back what the reference encodes, in as much room or more.
pub decode_chars-sextets :
    (src more : Bytes) (acc room : ℕ)
    → IsBytes src
    → length src ≤ room
    → decode_chars (chars_of (sextets src) ++ 0 ∷ more) acc 0 room ≡ Decoded.valid src
unfolding sextets
decode_chars-sextets [] more acc room h fits =
    decode_nul acc 0 room more ∙ check_rest_zero acc 0 (omega arith) (omega arith)
decode_chars-sextets (a ∷ []) more acc zero h fits = absurd (omega (arith, fits))
decode_chars-sextets (a ∷ []) more acc (suc room) h fits = decode_one acc a room more h.0
decode_chars-sextets (a ∷ b ∷ []) more acc zero h fits = absurd (omega (arith, fits))
decode_chars-sextets (a ∷ b ∷ []) more acc (suc zero) h fits = absurd (omega (arith, fits))
decode_chars-sextets (a ∷ b ∷ []) more acc (suc (suc room)) h fits =
    decode_pair acc a b room more h.0 h.1.0
decode_chars-sextets (a ∷ b ∷ c ∷ rest) more acc zero h fits = absurd (omega (arith, fits))
decode_chars-sextets (a ∷ b ∷ c ∷ rest) more acc (suc zero) h fits = absurd (omega (arith, fits))
decode_chars-sextets (a ∷ b ∷ c ∷ rest) more acc (suc (suc zero)) h fits =
    absurd (omega (arith, fits))
decode_chars-sextets (a ∷ b ∷ c ∷ rest) more acc (suc (suc (suc room))) h fits =
    decode_group acc a b c room (chars_of (sextets rest) ++ 0 ∷ more) h.0 h.1.0 h.1.1.0
    ∙ ap (λ d. written_before a (written_before b (written_before c d)))
        (decode_chars-sextets rest more _ room h.1.1.1 (omega (arith, fits)))

write_out_fits :
    (dst out : Bytes)
    → length out ≤ length dst
    → write_out dst out ≡ some (out ++ drop (length out) dst)
unfolding write_out
write_out_fits dst out h = rw (le→leb (length out) (length dst) h)

-- What `argon2_to_base64` has written into a buffer with room for it, `argon2_from_base64` turns
-- back into the same bytes, at the front of any buffer with room for them, and returns their
-- number.
pub argon2_from_base64-argon2_to_base64 :
    (dst src back : Bytes) (dst_len back_len : ℕ)
    → IsBytes src
    → length src < 2 ^ 62
    → dst_len ≤ length dst
    → length (sextets src) < dst_len
    → back_len ≤ length back
    → length src ≤ back_len
    → (encoded : Bytes) × (argon2_to_base64 dst dst_len src ≡ some (length (sextets src), encoded))
      × (argon2_from_base64 back back_len encoded
          ≡ some (length src, src ++ drop (length src) back))
unfolding argon2_from_base64 decoded_result
argon2_from_base64-argon2_to_base64 dst src back dst_len back_len bytes small room enough back_room
      fits =
    elim (argon2_to_base64_lem dst src dst_len bytes small room) [
      | inl (full, _) ↦ absurd (omega (arith, full, enough, chars))
      | inr (_, ok) ↦ (
        (chars_of (sextets src) ++ 0 ∷ []) ++ after,
        rw (sym chars) ok,
        rw (append_assoc (chars_of (sextets src)) (0 ∷ []) after) (
            rw (decode_chars-sextets src after 0 back_len bytes fits)
              (rw (write_out_fits back src (omega (arith, fits, back_room))) refl)),
      )
    ]
  where
    chars : length (chars_of (sextets src)) ≡ length (sextets src)
    chars = length-chars_of (sextets src)

    after : Bytes
    after = drop (suc (length (chars_of (sextets src)))) dst
