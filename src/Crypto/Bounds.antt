-- ===== src/Crypto/Bounds.antt =====
-- crypto_argon2.cpp: the decoder stays within its buffer, whatever it is given to decode.
use evo_runtime.Common.{
  ℕ, zero, suc, ◌-◌, ◌%◌, ◌^◌, ◌≤◌, ◌≡◌, refl, Bool, true, false, not, ◌||◌, some, [], ◌∷◌, ◌++◌,
  if◌then◌else◌, ltb, ◌==◌, arith, length, drop, Bool-cases, inl, inr, le→leb, length-append,
  length-drop,
}
use evo_runtime.Common.Bytes.{Bytes}
use evo_runtime.Crypto.Alphabet.{b64_char_to_byte-nul}
use evo_runtime.Crypto.Base64.{
  Decoded, written_before, check_rest, decode_chars, write_out, decoded_result, argon2_from_base64,
  invalid_size,
}

-- The loop has ended, and has written no more than `room` bytes.
Fits : ℕ → Decoded → Type 0
Fits room Decoded.unterminated = false ≡ true
Fits room (Decoded.invalid out) = length out ≤ room
Fits room (Decoded.valid out) = length out ≤ room

written_before-Fits :
    (b room : ℕ) (d : Decoded) → Fits room d → Fits (suc room) (written_before b d)
unfolding Fits
written_before-Fits b room Decoded.unterminated h = h
written_before-Fits b room (Decoded.invalid out) h = omega (arith, h)
written_before-Fits b room (Decoded.valid out) h = omega (arith, h)

check_rest-Fits : (acc acc_len room : ℕ) → Fits room (check_rest acc acc_len)
unfolding Fits check_rest
check_rest-Fits acc acc_len room =
    elim (Bool-cases (ltb 4 acc_len || not (acc % 2 ^ acc_len == 0))) [
      | inl e ↦ rw e (omega arith)
      | inr e ↦ rw e (omega arith)
    ]

-- One round of the loop, by what it does.
round-Fits :
    (ends full has_byte : Bool) (stop rest : Decoded) (b room : ℕ)
    → Fits room stop
    → Fits (if has_byte then room - 1 else room) rest
    → full ≡ (room == 0)
    → Fits room (
        if ends
        then stop
        else if not has_byte
        then rest
        else if full
        then Decoded.invalid []
        else written_before b rest)
unfolding Fits
round-Fits true full has_byte stop rest b room hs hr e = hs
round-Fits false full false stop rest b room hs hr e = hr
round-Fits false true true stop rest b room hs hr e = omega arith
round-Fits false false true stop rest b zero hs hr e = absurd (ground (arith, e))
round-Fits false false true stop rest b (suc room) hs hr e =
    written_before-Fits b room rest (rw pred at hr)
  where
    pred : suc room - 1 ≡ room
    pred = omega arith

decode_nul :
    (acc acc_len room : ℕ) (more : Bytes)
    → decode_chars (0 ∷ more) acc acc_len room ≡ check_rest acc acc_len
unfolding decode_chars
decode_nul acc acc_len room more = ground (arith, b64_char_to_byte-nul)

nul-Fits :
    (acc acc_len room : ℕ) (more : Bytes) → Fits room (decode_chars (0 ∷ more) acc acc_len room)
nul-Fits acc acc_len room more =
    rw (decode_nul acc acc_len room more) (check_rest-Fits acc acc_len room)

decode_chars-Fits :
    (pre post : Bytes) (acc acc_len room : ℕ)
    → Fits room (decode_chars (pre ++ 0 ∷ post) acc acc_len room)
unfolding decode_chars
decode_chars-Fits [] post acc acc_len room = nul-Fits acc acc_len room post
decode_chars-Fits (c ∷ pre) post acc acc_len room =
    round-Fits _ _ _ _ _ _ room (check_rest-Fits acc acc_len room)
      (decode_chars-Fits pre post _ _ _) refl

drop_written :
    (room : ℕ) (dst out : Bytes)
    → length out ≤ room
    → room ≤ length dst
    → drop room (out ++ drop (length out) dst) ≡ drop room dst
drop_written room dst [] h k = refl
drop_written zero dst (b ∷ out) h k = absurd (omega (arith, h))
drop_written (suc room) [] (b ∷ out) h k = absurd (omega (arith, k))
drop_written (suc room) (a ∷ dst) (b ∷ out) h k =
    drop_written room dst out (omega (arith, h)) (omega (arith, k))

-- What the loop wrote is at the start of the buffer, and what is behind its room is as it was.
write_out_room :
    (dst out : Bytes) (room : ℕ)
    → length out ≤ room
    → room ≤ length dst
    → (buffer : Bytes) × (write_out dst out ≡ some buffer)
      × (drop room buffer ≡ drop room dst)
      × (length buffer ≡ length dst)
unfolding write_out
write_out_room dst out room h k = (
  out ++ drop (length out) dst,
  rw (le→leb (length out) (length dst) (omega (arith, h, k))) refl,
  drop_written room dst out h k,
  omega (arith, h, k, length-append out (drop (length out) dst), length-drop (length out) dst),
)

-- What a run of the loop that fits leaves in the buffer.
decoded_result_room :
    (dst : Bytes) (room : ℕ) (d : Decoded)
    → room ≤ length dst
    → Fits room d
    → (n : ℕ) × (buffer : Bytes) × (decoded_result dst d ≡ some (n, buffer))
      × (drop room buffer ≡ drop room dst)
      × (length buffer ≡ length dst)
unfolding decoded_result Fits
decoded_result_room dst room Decoded.unterminated k h = cc
decoded_result_room dst room (Decoded.invalid out) k h =
    let (buffer, e, same, size) = write_out_room dst out room h k in
    (invalid_size, buffer, rw e refl, same, size)
decoded_result_room dst room (Decoded.valid out) k h =
    let (buffer, e, same, size) = write_out_room dst out room h k in
    (length out, buffer, rw e refl, same, size)

-- Given any source that holds a NUL, whatever its other bytes, and a length that does not exceed
-- the size of the buffer, the decoder ends without a fault and leaves every byte of the buffer
-- behind that length as it was.
pub argon2_from_base64_bounds :
    (dst : Bytes) (dst_len : ℕ) (pre post : Bytes)
    → dst_len ≤ length dst
    → (n : ℕ) × (buffer : Bytes) × (argon2_from_base64 dst dst_len (pre ++ 0 ∷ post)
        ≡ some (n, buffer))
      × (drop dst_len buffer ≡ drop dst_len dst)
      × (length buffer ≡ length dst)
unfolding argon2_from_base64
argon2_from_base64_bounds dst dst_len pre post h =
    decoded_result_room dst dst_len _ h (decode_chars-Fits pre post 0 0 dst_len)
