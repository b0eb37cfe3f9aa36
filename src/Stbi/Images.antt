-- ===== src/Stbi/Images.antt =====
-- stbi_ffi.cpp, images and how they are loaded and freed. A `stbi_image_t*` is `none` where it is
-- null, and so is its `data`; a file buffer is `none` where it is null. The source's `int` for a
-- size or a number of channels is a natural number here: a negative one is not represented.
use evo_runtime.Common.{ℕ, Bool, true, false, Option, none, some}
use evo_runtime.Common.Bytes.{Bytes}

pub record Image : Type 0 where
  pub width : ℕ
  pub height : ℕ
  pub pixels : Option Bytes
  pub channels : ℕ

abbrev pub no_conversion : ℕ
no_conversion = 0

abbrev pub convert_to_greyscale : ℕ
convert_to_greyscale = 1

abbrev pub convert_to_greyscale_with_alpha : ℕ
convert_to_greyscale_with_alpha = 2

abbrev pub convert_to_rgb : ℕ
convert_to_rgb = 3

abbrev pub convert_to_rgb_with_alpha : ℕ
convert_to_rgb_with_alpha = 4

-- What `stbi_load_from_memory` returns for a file and a number of channels to convert to, and the
-- three numbers that it writes, or leaves as they were; `info` is `stbi_info_from_memory`.
pub record Decoder : Type 0 where
  pub load : Bytes → ℕ → Image → Image
  pub info : Bytes → Image → Bool × Image

module _ (stb : Decoder) where
  unfoldable pub stbi_image_info : Option Bytes → Option Image → Bool × Option Image
  stbi_image_info none image = (false, image)
  stbi_image_info (some file) none = (false, none)
  stbi_image_info (some file) (some image) =
      let (known, read) = stb.info file image in (known, some read)

  -- The five loaders, which differ in the conversion that they ask for.
  unfoldable pub load_as : ℕ → Option Bytes → Option Image → Bool × Option Image
  load_as depth none image = (false, image)
  load_as depth (some file) none = (false, none)
  load_as depth (some file) (some image) =
      let loaded = stb.load file depth image in
      (elim loaded.pixels [ none ↦ false | some _ ↦ true ], some loaded)

  unfoldable pub stbi_load_image : Option Bytes → Option Image → Bool × Option Image
  unfolding load_as
  stbi_load_image file image = load_as no_conversion file image

  unfoldable pub stbi_load_rgb : Option Bytes → Option Image → Bool × Option Image
  unfolding load_as
  stbi_load_rgb file image = load_as convert_to_rgb file image

  unfoldable pub stbi_load_rgba : Option Bytes → Option Image → Bool × Option Image
  unfolding load_as
  stbi_load_rgba file image = load_as convert_to_rgb_with_alpha file image

  unfoldable pub stbi_load_monochrome : Option Bytes → Option Image → Bool × Option Image
  unfolding load_as
  stbi_load_monochrome file image = load_as convert_to_greyscale file image

  unfoldable pub stbi_load_monochrome_with_alpha : Option Bytes → Option Image → Bool × Option Image
  unfolding load_as
  stbi_load_monochrome_with_alpha file image = load_as convert_to_greyscale_with_alpha file image

-- The flag returned, and the data that stb_image frees. The image keeps its pointer to them.
unfoldable pub stbi_image_free : Option Image → Bool × Option Bytes
stbi_image_free none = (false, none)
stbi_image_free (some image) = elim image.pixels [
  | none ↦ (false, none)
  | some bytes ↦ (true, some bytes)
]
