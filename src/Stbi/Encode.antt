-- ===== src/Stbi/Encode.antt =====
-- stbi_ffi.cpp, encoding. A writer of stb_image_write hands its output to a callback in chunks; the
-- runtime's callback appends them to the buffer that Lua has reserved, or only counts them.
use evo_runtime.Common.{
  ℕ, ◌+◌, Bool, ◌||◌, Option, none, some, List, [], ◌∷◌, ◌++◌, if◌then◌else◌, leb, length, take,
  drop,
}
use evo_runtime.Common.Bytes.{Bytes}
use evo_runtime.Common.Int.{ℤ, pos, is_negative, exceeds}
use evo_runtime.Stbi.Images.{Image}

-- `luajit_stringbuffer_t`
pub record StringBuffer : Type 0 where
  pub bytes : Bytes
  pub capacity : ℕ
  pub num_bytes_used : ℕ

-- `memcpy(data + offset, chunk, chunk_size)`, where the bytes fit.
abbrev pub write_at : ℕ → Bytes → Bytes → Bytes
write_at offset chunk bytes = take offset bytes ++ (chunk ++ drop (offset + length chunk) bytes)

unfoldable pub append_to_buffer : StringBuffer → Bytes → StringBuffer
append_to_buffer b chunk =
    if leb (b.num_bytes_used + length chunk) b.capacity
    then record b {
      bytes = write_at b.num_bytes_used chunk b.bytes;
      num_bytes_used = b.num_bytes_used + length chunk;
    }
    else b

-- A writer calls the callback for each of its chunks in turn.
unfoldable pub write_chunks : StringBuffer → List Bytes → StringBuffer
unfolding append_to_buffer
write_chunks b [] = b
write_chunks b (chunk ∷ rest) = write_chunks (append_to_buffer b chunk) rest

unfoldable pub count_bytes : ℕ → List Bytes → ℕ
count_bytes counter [] = counter
count_bytes counter (chunk ∷ rest) = count_bytes (counter + length chunk) rest

-- The writers of stb_image_write: the chunks for an image with pixels, and whether they succeeded.
-- The last argument is the stride or the quality.
pub record Writers : Type 0 where
  pub bmp : Image → Bytes → List Bytes × Bool
  pub png : Image → Bytes → ℤ → List Bytes × Bool
  pub jpg : Image → Bytes → ℤ → List Bytes × Bool
  pub tga : Image → Bytes → List Bytes × Bool

-- The result is the number of bytes used and the buffer afterwards. The caller gives a buffer, null
-- if `none`, and its size.
abbrev pub encode :
    (Image → Bytes → List Bytes × Bool) → Option Image → Option Bytes → ℕ → ℕ × Option Bytes
encode writer image none size = (0, none)
encode writer none (some buffer) size = (0, some buffer)
encode writer (some image) (some buffer) size = elim image.pixels [
  | none ↦ (0, some buffer)
  | some pixels ↦
      let result =
        write_chunks (record { bytes = buffer; capacity = size; num_bytes_used = 0 })
          (writer image pixels).0 in
      (result.num_bytes_used, some result.bytes)
]

abbrev pub required : (Image → Bytes → List Bytes × Bool) → Option Image → ℕ
required writer none = 0
required writer (some image) = elim image.pixels [
  | none ↦ 0
  | some pixels ↦
      let (chunks, success) = writer image pixels in if success then count_bytes 0 chunks else 0
]

module _ (stb : Writers) where
  unfoldable pub stbi_encode_bmp : Option Image → Option Bytes → ℕ → ℕ × Option Bytes
  unfolding write_chunks
  stbi_encode_bmp image buffer size = encode stb.bmp image buffer size

  unfoldable pub stbi_encode_png : Option Image → Option Bytes → ℕ → ℤ → ℕ × Option Bytes
  unfolding write_chunks
  stbi_encode_png image buffer size stride = encode (λ i p. stb.png i p stride) image buffer size

  -- `if(quality < 0 || quality > 100) quality = 100;`
  abbrev pub clamped : ℤ → ℤ
  clamped quality = if is_negative quality || exceeds quality 100 then pos 100 else quality

  unfoldable pub stbi_encode_jpg : Option Image → Option Bytes → ℕ → ℤ → ℕ × Option Bytes
  unfolding write_chunks
  stbi_encode_jpg image buffer size quality =
      encode (λ i p. stb.jpg i p (clamped quality)) image buffer size

  unfoldable pub stbi_encode_tga : Option Image → Option Bytes → ℕ → ℕ × Option Bytes
  unfolding write_chunks
  stbi_encode_tga image buffer size = encode stb.tga image buffer size

  unfoldable pub stbi_get_required_bmp_size : Option Image → ℕ
  unfolding count_bytes
  stbi_get_required_bmp_size image = required stb.bmp image

  unfoldable pub stbi_get_required_png_size : Option Image → ℤ → ℕ
  unfolding count_bytes
  stbi_get_required_png_size image stride = required (λ i p. stb.png i p stride) image

  unfoldable pub stbi_get_required_jpg_size : Option Image → ℤ → ℕ
  unfolding count_bytes
  stbi_get_required_jpg_size image quality = required (λ i p. stb.jpg i p quality) image

  unfoldable pub stbi_get_required_tga_size : Option Image → ℕ
  unfolding count_bytes
  stbi_get_required_tga_size image = required stb.tga image
