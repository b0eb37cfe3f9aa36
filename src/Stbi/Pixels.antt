-- ===== src/Stbi/Pixels.antt =====
-- stbi_ffi.cpp, the in-place loops over the pixels of an image. The pixels are read and written as
-- four bytes each, whatever the image's number of channels; an access behind the data is a fault,
-- `none`.
use evo_runtime.Common.{
  ℕ, zero, suc, ◌*◌, ◌%◌, ◌^◌, ◌<◌, ◌≡◌, ◌≢◌, refl, ◌⊎◌, inl, inr, Bool-cases, Bool, true, false,
  ◌&&◌, Option, none, some, List, [], ◌∷◌, ◌++◌, map, arith, if◌then◌else◌, ◌==◌, length,
}
use evo_runtime.Common.Bytes.{Bytes, ◌>>=◌}
use evo_runtime.Stbi.Images.{Image}

pub record Color : Type 0 where
  pub red : ℕ
  pub green : ℕ
  pub blue : ℕ
  pub alpha : ℕ

-- `static_cast<size_t>(image->width) * static_cast<size_t>(image->height)`
unfoldable pub num_pixels : Image → ℕ
num_pixels image = (image.width * image.height) % 2 ^ 64

-- One round for each pixel: `pixel[0]` changes places with `pixel[3]`, and `pixel[1]` with
-- `pixel[2]`.
unfoldable pub swap_pixels : ℕ → Bytes → Option Bytes
swap_pixels zero bytes = some bytes
swap_pixels (suc n) (p0 ∷ p1 ∷ p2 ∷ p3 ∷ rest) = do
  swapped ← swap_pixels n rest
  some (p3 ∷ p2 ∷ p1 ∷ p0 ∷ swapped)
swap_pixels (suc n) _ = none

abbrev with_pixels : Image → Option Bytes → Option (Option Image)
with_pixels image none = none
with_pixels image (some bytes) = some (some (record image { pixels = some bytes }))

unfoldable pub stbi_abgr_to_rgba : Option Image → Option (Option Image)
unfolding swap_pixels num_pixels
stbi_abgr_to_rgba none = some none
stbi_abgr_to_rgba (some image) = elim image.pixels [
  | none ↦ some (some image)
  | some bytes ↦ with_pixels image (swap_pixels (num_pixels image) bytes)
]

unfoldable pub same_color : Color → Color → Bool
same_color pixel source =
    pixel.red == source.red
    && pixel.green == source.green
    && pixel.blue == source.blue
    && pixel.alpha == source.alpha

unfoldable pub replace_pixel : Color → Color → Color → Color
unfolding same_color
replace_pixel source replacement pixel = if same_color pixel source then replacement else pixel

-- `reinterpret_cast<stbi_color_t*>`: four bytes as a colour.
abbrev pub color_at : ℕ → ℕ → ℕ → ℕ → Color
color_at r g b a = record { red = r; green = g; blue = b; alpha = a }

abbrev pub put_color : Color → Bytes → Bytes
put_color c rest = c.red ∷ c.green ∷ c.blue ∷ c.alpha ∷ rest

unfoldable pub replace_pixels : Color → Color → ℕ → Bytes → Option Bytes
unfolding replace_pixel
replace_pixels source replacement zero bytes = some bytes
replace_pixels source replacement (suc n) (r ∷ g ∷ b ∷ a ∷ rest) = do
  replaced ← replace_pixels source replacement n rest
  some (put_color (replace_pixel source replacement (color_at r g b a)) replaced)
replace_pixels source replacement (suc n) _ = none

unfoldable pub stbi_replace_pixel_color_rgba : Option Image → Color → Color → Option (Option Image)
unfolding replace_pixels num_pixels
stbi_replace_pixel_color_rgba none source replacement = some none
stbi_replace_pixel_color_rgba (some image) source replacement = elim image.pixels [
  | none ↦ some (some image)
  | some bytes ↦ with_pixels image (replace_pixels source replacement (num_pixels image) bytes)
]

-- The bytes of a list of pixels in RGBA order, and in ABGR order.
abbrev pub rgba : List Color → Bytes
rgba [] = []
rgba (c ∷ cs) = put_color c (rgba cs)

abbrev pub abgr : List Color → Bytes
abgr [] = []
abgr (c ∷ cs) = c.alpha ∷ c.blue ∷ c.green ∷ c.red ∷ abgr cs

swap_pixels-abgr :
    (cs : List Color) (rest : Bytes)
    → swap_pixels (length cs) (abgr cs ++ rest) ≡ some (rgba cs ++ rest)
unfolding swap_pixels
swap_pixels-abgr [] rest = refl
swap_pixels-abgr (c ∷ cs) rest = rw (swap_pixels-abgr cs rest)

replace_pixels-rgba :
    (source replacement : Color) (cs : List Color) (rest : Bytes)
    → replace_pixels source replacement (length cs) (rgba cs ++ rest)
      ≡ some (rgba (map (replace_pixel source replacement) cs) ++ rest)
unfolding replace_pixels
replace_pixels-rgba source replacement [] rest = refl
replace_pixels-rgba source replacement (c ∷ cs) rest =
    rw (replace_pixels-rgba source replacement cs rest)

-- Data that hold fewer bytes than four for each pixel.
swap_pixels_short : (n : ℕ) (bytes : Bytes) → length bytes < n * 4 → swap_pixels n bytes ≡ none
unfolding swap_pixels
swap_pixels_short zero bytes h = absurd (omega arith)
swap_pixels_short (suc n) [] h = refl
swap_pixels_short (suc n) (a ∷ []) h = refl
swap_pixels_short (suc n) (a ∷ b ∷ []) h = refl
swap_pixels_short (suc n) (a ∷ b ∷ c ∷ []) h = refl
swap_pixels_short (suc n) (a ∷ b ∷ c ∷ d ∷ rest) h = rw (swap_pixels_short n rest (omega arith))

num_pixels_lem :
    (image : Image) (n : ℕ) → image.width * image.height ≡ n → n < 2 ^ 64 → num_pixels image ≡ n
unfolding num_pixels
num_pixels_lem image n e h = rw e (omega arith)

same_color-eq : (p q : Color) → same_color p q ≡ true → p ≡ q
unfolding same_color
same_color-eq p q h = ground arith

same_color-ne : (p q : Color) → same_color p q ≡ false → p ≢ q
unfolding same_color
same_color-ne p q h e = ground arith

-- A pixel of the wanted colour becomes the replacement, and any other stays.
pub replace_pixel_lem :
    (source replacement pixel : Color)
    → ((pixel ≡ source) × (replace_pixel source replacement pixel ≡ replacement))
      ⊎ ((pixel ≢ source) × (replace_pixel source replacement pixel ≡ pixel))
unfolding replace_pixel
replace_pixel_lem source replacement pixel = elim (Bool-cases (same_color pixel source)) [
  | inl e ↦ inl (same_color-eq pixel source e, rw e)
  | inr e ↦ inr (λ p. same_color-ne pixel source e p, rw e)
]

module _ (image : Image) (cs : List Color) (rest : Bytes) where
  -- An image whose data begin with as many ABGR pixels as its dimensions say gets the same pixels
  -- in RGBA order; bytes behind them, and the image's other fields, stay.
  pub stbi_abgr_to_rgba_lem :
      image.pixels ≡ some (abgr cs ++ rest)
      → image.width * image.height ≡ length cs
      → length cs < 2 ^ 64
      → stbi_abgr_to_rgba (some image)
        ≡ some (some (record image { pixels = some (rgba cs ++ rest) }))
  unfolding stbi_abgr_to_rgba
  stbi_abgr_to_rgba_lem held size small =
      let count = num_pixels_lem image (length cs) size small in
      let swapped : swap_pixels (num_pixels image) (abgr cs ++ rest) ≡ some (rgba cs ++ rest) =
        rw count (swap_pixels-abgr cs rest) in
      ground (arith, swapped)

  -- Replacing a colour works on exactly the pixels that the image's dimensions say, each by itself;
  -- bytes behind them, and the image's other fields, stay.
  pub stbi_replace_pixel_color_rgba_lem :
      (source replacement : Color)
      → image.pixels ≡ some (rgba cs ++ rest)
      → image.width * image.height ≡ length cs
      → length cs < 2 ^ 64
      → stbi_replace_pixel_color_rgba (some image) source replacement
        ≡ some (
            some (record image {
              pixels = some (rgba (map (replace_pixel source replacement) cs) ++ rest);
            }))
  unfolding stbi_replace_pixel_color_rgba
  stbi_replace_pixel_color_rgba_lem source replacement held size small =
      let count = num_pixels_lem image (length cs) size small in
      let replaced : replace_pixels source replacement (num_pixels image) (rgba cs ++ rest)
          ≡ some (rgba (map (replace_pixel source replacement) cs) ++ rest) =
        rw count (replace_pixels-rgba source replacement cs rest) in
      ground (arith, replaced)

-- Neither loop looks at `channels`: on an image with fewer than four channels, whose data hold that
-- many bytes for each pixel, the conversion leaves the data.
pub stbi_abgr_to_rgba_overruns :
    (image : Image) (bytes : Bytes) (n : ℕ)
    → image.pixels ≡ some bytes
    → image.width * image.height ≡ n
    → n < 2 ^ 64
    → 0 < n
    → image.channels < 4
    → length bytes ≡ n * image.channels
    → stbi_abgr_to_rgba (some image) ≡ none
unfolding stbi_abgr_to_rgba
stbi_abgr_to_rgba_overruns image bytes n held size small some_pixels channels full =
    let count = num_pixels_lem image n size small in
    let short : swap_pixels (num_pixels image) bytes ≡ none =
      rw count (swap_pixels_short n bytes (grind arith)) in
    ground (arith, short)
