-- ===== src/Examples/Images.antt =====
-- The theorems of stbi_ffi.cpp at a small image.
use evo_runtime.Common.{
  ℕ, ◌≡◌, refl, ◌++◌, Bool, true, some, List, [], ◌∷◌, arith, length, take, drop,
}
use evo_runtime.Common.Bytes.{Bytes}
use evo_runtime.Stbi.Images.{Image}
use evo_runtime.Stbi.Encode.{StringBuffer, write_chunks, count_bytes, encode, required}
use evo_runtime.Stbi.Sizes.{joined, InBounds, write_chunks-InBounds, encode-required}
use evo_runtime.Stbi.Pixels.{Color, stbi_abgr_to_rgba, rgba, abgr, stbi_abgr_to_rgba_lem}

abbrev red : Color
red = record { red = 255; green = 0; blue = 0; alpha = 255 }

abbrev clear : Color
clear = record { red = 0; green = 0; blue = 0; alpha = 0 }

abbrev image_of : ℕ → Bytes → Image
image_of channels bytes = record { width = 2; height = 1; pixels = some bytes; channels = channels }

abbrev pixels : List Color
pixels = red ∷ clear ∷ []

abbrev buffer : Bytes
buffer = 0 ∷ 0 ∷ 0 ∷ 0 ∷ []

abbrev writer : Image → Bytes → List Bytes × Bool
writer image bytes = ((1 ∷ 2 ∷ []) ∷ (3 ∷ []) ∷ [], true)

abbrev small_buffer : StringBuffer
small_buffer = record { bytes = buffer; capacity = 2; num_bytes_used = 0 }

small_buffer-InBounds : InBounds small_buffer
small_buffer-InBounds = record { used = omega arith; backed = omega arith }

write_chunks-InBounds_example :
    InBounds (write_chunks small_buffer ((1 ∷ []) ∷ (2 ∷ 3 ∷ []) ∷ []))
    × ((write_chunks small_buffer ((1 ∷ []) ∷ (2 ∷ 3 ∷ []) ∷ [])).capacity ≡ 2)
    × (length (write_chunks small_buffer ((1 ∷ []) ∷ (2 ∷ 3 ∷ []) ∷ [])).bytes ≡ 4)
    × (drop 2 (write_chunks small_buffer ((1 ∷ []) ∷ (2 ∷ 3 ∷ []) ∷ [])).bytes ≡ 0 ∷ 0 ∷ [])
write_chunks-InBounds_example =
    write_chunks-InBounds small_buffer ((1 ∷ []) ∷ (2 ∷ 3 ∷ []) ∷ []) small_buffer-InBounds

encode-required_example :
    (output : Bytes) × (encode writer (some (image_of 4 (rgba pixels))) (some buffer) 3
      ≡ (required writer (some (image_of 4 (rgba pixels))), some output))
    × (take (required writer (some (image_of 4 (rgba pixels)))) output
        ≡ joined ((1 ∷ 2 ∷ []) ∷ (3 ∷ []) ∷ []))
    × (length output ≡ 4)
    × (drop 3 output ≡ 0 ∷ [])
unfolding count_bytes
encode-required_example =
    encode-required writer (image_of 4 (rgba pixels)) (rgba pixels) buffer 3 refl refl (omega arith)
      (omega arith)

stbi_abgr_to_rgba_lem_example :
    stbi_abgr_to_rgba (some (image_of 4 (abgr pixels ++ 7 ∷ [])))
    ≡ some (some (image_of 4 (rgba pixels ++ 7 ∷ [])))
stbi_abgr_to_rgba_lem_example =
    stbi_abgr_to_rgba_lem (image_of 4 (abgr pixels ++ 7 ∷ [])) pixels (7 ∷ []) refl refl
      (omega arith)
