-- ===== src/Crypto/Base64.antt =====
-- Runtime/Bindings/FFI/crypto/crypto_argon2.cpp: the two conversions, with their accumulators of 32
-- bits. `x >> k` is a quotient and `x & (2^k - 1)` a remainder. A write past the end of the
-- caller's buffer is a fault, `none`, and so is a read behind the end of the source.
use evo_runtime.Common.{
  ℕ, zero, suc, ◌+◌, ◌-◌, ◌*◌, ◌/◌, ◌%◌, ◌^◌, not, ◌||◌, Option, none, some, [], ◌∷◌, ◌++◌,
  if◌then◌else◌, leb, ltb, ◌==◌, length, drop,
}
use evo_runtime.Common.Bytes.{Bytes, ◌>>=◌}
use evo_runtime.Crypto.Alphabet.{b64_byte_to_char, b64_char_to_byte, from_char}

-- `static_cast<size_t>(-1)`
abbrev pub invalid_size : ℕ
invalid_size = 2 ^ 64 - 1

-- The length of the encoding: four characters for every three bytes, and two or three for the rest.
unfoldable pub encoded_length : ℕ → ℕ
encoded_length src_len =
    let olen = (src_len / 3 * 4) % 2 ^ 64 in
    let rest = src_len % 3 in
    if rest == 2 then (olen + 3) % 2 ^ 64 else if rest == 1 then (olen + 2) % 2 ^ 64 else olen

-- `while(acc_len >= 6)`, with at most `fuel` rounds: the characters written and `acc_len`
-- afterwards.
unfoldable pub write_sextets : (fuel acc acc_len : ℕ) → Bytes × ℕ
write_sextets zero acc acc_len = ([], acc_len)
write_sextets (suc fuel) acc acc_len =
    let rest = write_sextets fuel acc (acc_len - 6) in
    if leb 6 acc_len
    then (b64_byte_to_char (acc / 2 ^ (acc_len - 6) % 64) ∷ rest.0, rest.1)
    else ([], acc_len)

-- `*dst++` for each byte of `out`, from the start of a buffer.
unfoldable pub write_out : Bytes → Bytes → Option Bytes
write_out dst out =
    if leb (length out) (length dst) then some (out ++ drop (length out) dst) else none

-- The last character, of the bits that are left.
unfoldable pub write_last : (acc acc_len : ℕ) → Bytes
write_last acc acc_len =
    if ltb 0 acc_len then b64_byte_to_char ((acc * 2 ^ (6 - acc_len)) % 2 ^ 32 % 64) ∷ [] else []

-- The loop over the remaining bytes, and the last character.
unfoldable pub encode_rest : Bytes → (acc acc_len : ℕ) → Bytes
unfolding write_sextets write_last
encode_rest [] acc acc_len = write_last acc acc_len
encode_rest (b ∷ buf) acc acc_len =
    let next = (acc * 2 ^ 8 + b) % 2 ^ 32 in
    let (chars, left) = write_sextets (acc_len + 8) next (acc_len + 8) in
    chars ++ encode_rest buf next left

-- The unrolled loop over three bytes at a time, and what comes after it.
unfoldable pub encode_chars : Bytes → (acc acc_len : ℕ) → Bytes
unfolding encode_rest
encode_chars (a ∷ b ∷ c ∷ buf) acc acc_len =
    let next = (acc * 2 ^ 24 + a * 2 ^ 16 + b * 2 ^ 8 + c) % 2 ^ 32 in
    let (chars, left) = write_sextets 24 next 24 in chars ++ encode_chars buf next left
encode_chars buf acc acc_len = encode_rest buf acc acc_len

-- What is returned, and the buffer afterwards.
unfoldable pub argon2_to_base64 : Bytes → ℕ → Bytes → Option (ℕ × Bytes)
unfolding encode_chars encoded_length
argon2_to_base64 dst dst_len src =
    let olen = encoded_length (length src) in
    if leb dst_len olen
    then some (invalid_size, dst)
    else write_out dst (encode_chars src 0 0 ++ 0 ∷ []) >>= λ written. some (olen, written)

-- The loop's way out: the bytes written, and whether the result is their number.
pub data Decoded : Type 0 where
  unterminated : Decoded
  invalid valid : Bytes → Decoded

-- A byte in front of what the rest of the loop writes.
abbrev pub written_before : ℕ → Decoded → Decoded
written_before b Decoded.unterminated = Decoded.unterminated
written_before b (Decoded.invalid out) = Decoded.invalid (b ∷ out)
written_before b (Decoded.valid out) = Decoded.valid (b ∷ out)

-- The check behind the loop.
unfoldable pub check_rest : (acc acc_len : ℕ) → Decoded
check_rest acc acc_len =
    if ltb 4 acc_len || not (acc % 2 ^ acc_len == 0) then Decoded.invalid [] else Decoded.valid []

-- The loop, with room for `room` more bytes in `dst`.
unfoldable pub decode_chars : Bytes → (acc acc_len room : ℕ) → Decoded
unfolding check_rest
decode_chars [] acc acc_len room = Decoded.unterminated
decode_chars (c ∷ src) acc acc_len room =
    let d = b64_char_to_byte (from_char c) in
    let next = (acc * 2 ^ 6 + d) % 2 ^ 32 in
    let has_byte = leb 8 (acc_len + 6) in
    let left = if has_byte then acc_len + 6 - 8 else acc_len + 6 in
    let rest = decode_chars src next left (if has_byte then room - 1 else room) in
    if ltb 63 d
    then check_rest acc acc_len
    else if not has_byte
    then rest
    else if room == 0
    then Decoded.invalid []
    else written_before (next / 2 ^ left % 256) rest

-- What a way out of the loop returns and leaves in the buffer.
unfoldable pub decoded_result : Bytes → Decoded → Option (ℕ × Bytes)
unfolding write_out
decoded_result dst Decoded.unterminated = none
decoded_result dst (Decoded.invalid out) =
    write_out dst out >>= λ written. some (invalid_size, written)
decoded_result dst (Decoded.valid out) = write_out dst out >>= λ written. some (length out, written)

unfoldable pub argon2_from_base64 : Bytes → ℕ → Bytes → Option (ℕ × Bytes)
unfolding decode_chars decoded_result
argon2_from_base64 dst dst_len src = decoded_result dst (decode_chars src 0 0 dst_len)
