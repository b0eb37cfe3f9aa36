-- ===== src/Stbi/Sizes.antt =====
-- Encoding into a reserved buffer: the size that is asked for first is enough, and the buffer's
-- limit is kept.
use evo_runtime.Common.{
  ℕ, zero, suc, ◌+◌, ◌≤◌, ◌<◌, ◌≡◌, refl, ap, sym, ◌∙◌, Bool, true, some, List, [], ◌∷◌, ◌++◌,
  arith, length, length-append, length-take, length-drop, take, drop, append-nil, append_assoc,
  le→leb, lt→leb, take-append,
}
use native.Mathlib.Decide.{dec_le}
use evo_runtime.Common.Bytes.{Bytes}
use evo_runtime.Stbi.Images.{Image}
use evo_runtime.Stbi.Encode.{
  StringBuffer, write_at, append_to_buffer, write_chunks, count_bytes, encode, required,
}

-- All the bytes that a writer hands over.
abbrev pub joined : List Bytes → Bytes
joined [] = []
joined (chunk ∷ rest) = chunk ++ joined rest

drop-nil : (k : ℕ) → drop {A = ℕ} k [] ≡ []
drop-nil zero = refl
drop-nil (suc k) = refl

drop_behind :
    (n k : ℕ) (x bytes : Bytes)
    → n ≡ length x
    → n ≤ length bytes
    → n ≤ k
    → drop k (x ++ drop n bytes) ≡ drop k bytes
drop_behind zero k [] bytes e l h = refl
drop_behind zero k (a ∷ x) bytes e l h = absurd (omega arith)
drop_behind (suc n) k [] bytes e l h = absurd (omega arith)
drop_behind (suc n) k (a ∷ x) [] e l h = absurd (omega arith)
drop_behind (suc n) zero (a ∷ x) (b ∷ bytes) e l h = absurd (omega arith)
drop_behind (suc n) (suc k) (a ∷ x) (b ∷ bytes) e l h =
    drop_behind n k x bytes (omega arith) (omega arith) (omega arith)

module _ (offset : ℕ) (chunk bytes : Bytes) (fits : offset + length chunk ≤ length bytes) where
  write_at_parts :
      (offset + length chunk ≡ length (take offset bytes ++ chunk))
      × (write_at offset chunk bytes
          ≡ (take offset bytes ++ chunk) ++ drop (offset + length chunk) bytes)
  write_at_parts = (
    omega (arith, length-append (take offset bytes) chunk, length-take offset bytes),
    sym (append_assoc (take offset bytes) chunk (drop (offset + length chunk) bytes)),
  )

  length-write_at : length (write_at offset chunk bytes) ≡ length bytes
  length-write_at = omega (
    arith,
    length-append (take offset bytes) (chunk ++ drop (offset + length chunk) bytes),
    length-append chunk (drop (offset + length chunk) bytes),
    length-take offset bytes,
    length-drop (offset + length chunk) bytes,
  )

  take-write_at :
      take (offset + length chunk) (write_at offset chunk bytes) ≡ take offset bytes ++ chunk
  take-write_at =
      ap (take (offset + length chunk)) write_at_parts.1
      ∙ take-append (offset + length chunk) (take offset bytes ++ chunk) _ write_at_parts.0

  drop-write_at :
      (k : ℕ) → offset + length chunk ≤ k → drop k (write_at offset chunk bytes) ≡ drop k bytes
  drop-write_at k h =
      ap (drop k) write_at_parts.1
      ∙ drop_behind (offset + length chunk) k (take offset bytes ++ chunk) bytes write_at_parts.0
          fits h

-- The buffer as it stands between two chunks.
pub record InBounds (b : StringBuffer) : Type 0 where
  pub used : b.num_bytes_used ≤ b.capacity
  pub backed : b.capacity ≤ length b.bytes

append_fits :
    (b : StringBuffer) (chunk : Bytes)
    → b.num_bytes_used + length chunk ≤ b.capacity
    → append_to_buffer b chunk ≡ record b {
      bytes = write_at b.num_bytes_used chunk b.bytes;
      num_bytes_used = b.num_bytes_used + length chunk;
    }
unfolding append_to_buffer
append_fits b chunk h = rw (le→leb (b.num_bytes_used + length chunk) b.capacity h)

append_refused :
    (b : StringBuffer) (chunk : Bytes)
    → b.capacity < b.num_bytes_used + length chunk
    → append_to_buffer b chunk ≡ b
unfolding append_to_buffer
append_refused b chunk h = rw (lt→leb (b.num_bytes_used + length chunk) b.capacity h)

-- What each chunk leaves as it was.
abbrev Within : StringBuffer → StringBuffer → Type 0
Within b c =
    InBounds c
    × (c.capacity ≡ b.capacity)
    × (length c.bytes ≡ length b.bytes)
    × (drop b.capacity c.bytes ≡ drop b.capacity b.bytes)

append_to_buffer-Within :
    (b : StringBuffer) (chunk : Bytes) → InBounds b → Within b (append_to_buffer b chunk)
append_to_buffer-Within b chunk v = elim (dec_le (b.num_bytes_used + length chunk) b.capacity) [
  | yes fits ↦
      let room : b.num_bytes_used + length chunk ≤ length b.bytes = omega arith in
      rw (append_fits b chunk fits) (
        record {
          used = fits;
          backed = omega (arith, length-write_at b.num_bytes_used chunk b.bytes room);
        },
        refl,
        length-write_at b.num_bytes_used chunk b.bytes room,
        drop-write_at b.num_bytes_used chunk b.bytes room b.capacity fits,
      )
  | no full ↦ rw (append_refused b chunk (omega arith)) (v, refl, refl, refl)
]

-- Whatever a writer hands over, the buffer stays within its limits: its size stays, no more than
-- its capacity is used, and no byte behind the capacity changes.
pub write_chunks-InBounds :
    (b : StringBuffer) (chunks : List Bytes)
    → InBounds b
    → InBounds (write_chunks b chunks)
      × ((write_chunks b chunks).capacity ≡ b.capacity)
      × (length (write_chunks b chunks).bytes ≡ length b.bytes)
      × (drop b.capacity (write_chunks b chunks).bytes ≡ drop b.capacity b.bytes)
unfolding write_chunks
write_chunks-InBounds b [] v = (v, refl, refl, refl)
write_chunks-InBounds b (chunk ∷ rest) v =
    let (v', same_capacity, same_length, same_end) = append_to_buffer-Within b chunk v in
    let (w, c, l, d) = write_chunks-InBounds (append_to_buffer b chunk) rest v' in
    (w, c ∙ same_capacity, l ∙ same_length, rw same_capacity at d ∙ same_end)

write_chunks_fit :
    (b : StringBuffer) (chunks : List Bytes)
    → InBounds b
    → b.num_bytes_used + length (joined chunks) ≤ b.capacity
    → ((write_chunks b chunks).num_bytes_used ≡ b.num_bytes_used + length (joined chunks))
      × (take (b.num_bytes_used + length (joined chunks)) (write_chunks b chunks).bytes
          ≡ take b.num_bytes_used b.bytes ++ joined chunks)
unfolding write_chunks
write_chunks_fit b [] v h =
    let z : b.num_bytes_used + 0 ≡ b.num_bytes_used = omega arith in
    (sym z, rw z (sym (append-nil (take b.num_bytes_used b.bytes))))
write_chunks_fit b (chunk ∷ rest) v h =
    let lengths = length-append chunk (joined rest) in
    let room : b.num_bytes_used + length chunk ≤ length b.bytes = omega (arith, lengths) in
    let c = append_to_buffer b chunk in
    let step = append_fits b chunk (omega (arith, lengths)) in
    let used : c.num_bytes_used ≡ b.num_bytes_used + length chunk =
      ap (λ r. r.num_bytes_used) step in
    let capacity : c.capacity ≡ b.capacity = ap (λ r. r.capacity) step in
    let bytes : c.bytes ≡ write_at b.num_bytes_used chunk b.bytes = ap (λ r. r.bytes) step in
    let total : b.num_bytes_used + length (chunk ++ joined rest)
        ≡ c.num_bytes_used + length (joined rest) =
      omega (arith, lengths) in
    let (count, content) =
      write_chunks_fit c rest (append_to_buffer-Within b chunk v).0 (omega (arith, lengths)) in
    (
      rw total count,
      rw total (
          content
          ∙ ap (λ t. t ++ joined rest)
              (rw (used, bytes) (take-write_at b.num_bytes_used chunk b.bytes room))
          ∙ append_assoc (take b.num_bytes_used b.bytes) chunk (joined rest)),
    )

count_bytes-joined :
    (counter : ℕ) (chunks : List Bytes)
    → count_bytes counter chunks ≡ counter + length (joined chunks)
unfolding count_bytes
count_bytes-joined counter [] = omega arith
count_bytes-joined counter (chunk ∷ rest) =
    omega
      (arith, count_bytes-joined (counter + length chunk) rest, length-append chunk (joined rest))

-- Where a writer succeeds on an image with pixels, and a buffer has at least the size that counting
-- that writer's output gives, the buffer receives the whole output, its length is returned, and the
-- bytes behind the size that was passed stay.
pub encode-required :
    (writer : Image → Bytes → List Bytes × Bool) (image : Image) (pixels buffer : Bytes) (size : ℕ)
    → image.pixels ≡ some pixels
    → (writer image pixels).1 ≡ true
    → required writer (some image) ≤ size
    → size ≤ length buffer
    → (output : Bytes) × (encode writer (some image) (some buffer) size
        ≡ (required writer (some image), some output))
      × (take (required writer (some image)) output ≡ joined (writer image pixels).0)
      × (length output ≡ length buffer)
      × (drop size output ≡ drop size buffer)
encode-required writer image pixels buffer size held success enough backed =
    let chunks = (writer image pixels).0 in
    let b : StringBuffer = record { bytes = buffer; capacity = size; num_bytes_used = 0 } in
    let v : InBounds b = record { used = omega arith; backed = backed } in
    let asked : required writer (some image) ≡ length (joined chunks) =
      ground (arith, count_bytes-joined 0 chunks) in
    let (count, content) = write_chunks_fit b chunks v (omega (arith, asked)) in
    let (_, _, same_length, same_end) = write_chunks-InBounds b chunks v in
    let total : 0 + length (joined chunks) ≡ length (joined chunks) = omega arith in
    (
      (write_chunks b chunks).bytes,
      ground (arith, asked, count),
      rw asked (rw total at content),
      same_length,
      same_end,
    )

skip_middle :
    (b : StringBuffer) (front middle : Bytes) (rest : List Bytes)
    → b.num_bytes_used + length front ≤ b.capacity
    → b.capacity < b.num_bytes_used + length front + length middle
    → write_chunks b (front ∷ middle ∷ rest) ≡ write_chunks b (front ∷ rest)
unfolding write_chunks
skip_middle b front middle rest fits full =
    let step = append_fits b front fits in
    let used : (append_to_buffer b front).num_bytes_used ≡ b.num_bytes_used + length front =
      ap (λ r. r.num_bytes_used) step in
    let capacity : (append_to_buffer b front).capacity ≡ b.capacity = ap (λ r. r.capacity) step in
    ap (λ c. write_chunks c rest) (append_refused (append_to_buffer b front) middle (omega arith))

-- A chunk that does not fit is left out, and the encoder is not told: where a later chunk fits
-- again, it lands in the place of the missing one, and the call returns a positive size all the
-- same.
pub encode_leaves_gap :
    (image : Image) (pixels buffer front middle back : Bytes) (size : ℕ)
    → image.pixels ≡ some pixels
    → size ≤ length buffer
    → length front + length back ≤ size
    → size < length front + length middle
    → 0 < length back
    → (output : Bytes) × (encode
          (λ i p. (front ∷ middle ∷ back ∷ [], true))
          (some image)
          (some buffer)
          size
        ≡ (length front + length back, some output))
      × (take (length front + length back) output ≡ front ++ back)
encode_leaves_gap image pixels buffer front middle back size held backed room full some_back =
    let b : StringBuffer = record { bytes = buffer; capacity = size; num_bytes_used = 0 } in
    let chunks : List Bytes = front ∷ back ∷ [] in
    let l : length (joined chunks) ≡ length front + length back =
      omega (arith, length-append front (back ++ []), length-append back []) in
    let z : 0 + length (joined chunks) ≡ length front + length back = omega (arith, l) in
    let skipped = skip_middle b front middle (back ∷ []) (omega arith) (omega arith) in
    let (count, content) =
      write_chunks_fit b chunks (record { used = omega arith; backed = backed })
        (omega (arith, l)) in
    (
      (write_chunks b (front ∷ middle ∷ back ∷ [])).bytes,
      ground (arith, skipped, count, l),
      rw skipped (rw z at content ∙ ap (λ t. front ++ t) (append-nil back)),
    )
