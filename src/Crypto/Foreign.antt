-- ===== src/Crypto/Foreign.antt =====
-- crypto_argon2.cpp: what the decoder makes of bytes that are not ASCII.
use evo_runtime.Common.{ℕ, ◌≤◌, ◌<◌, ◌≡◌, refl, ap, [], ◌∷◌, ◌++◌}
use evo_runtime.Common.Bytes.{Bytes}
use evo_runtime.Crypto.Alphabet.{b64_char_to_byte, from_char, b64_char_to_byte-other}
use evo_runtime.Crypto.Base64.{decode_chars, decoded_result, argon2_from_base64}

slash : b64_char_to_byte (from_char 47) ≡ 63
unfolding b64_char_to_byte
slash = refl

decode_chars-foreign :
    (pre post : Bytes) (c acc acc_len room : ℕ)
    → 128 ≤ c
    → c < 256
    → decode_chars (pre ++ c ∷ post) acc acc_len room
      ≡ decode_chars (pre ++ 47 ∷ post) acc acc_len room
unfolding decode_chars
decode_chars-foreign [] post c acc acc_len room h k = rw (b64_char_to_byte-other c h k, slash) refl
decode_chars-foreign (p ∷ pre) post c acc acc_len room h k =
    rw (decode_chars-foreign pre post c _ _ _ h k) refl

-- A byte of 128 or more, wherever it stands, is decoded as if it were a slash.
pub argon2_from_base64_foreign :
    (dst pre post : Bytes) (dst_len c : ℕ)
    → 128 ≤ c
    → c < 256
    → argon2_from_base64 dst dst_len (pre ++ c ∷ post)
      ≡ argon2_from_base64 dst dst_len (pre ++ 47 ∷ post)
unfolding argon2_from_base64
argon2_from_base64_foreign dst pre post dst_len c h k =
    ap (decoded_result dst) (decode_chars-foreign pre post c 0 0 dst_len h k)
