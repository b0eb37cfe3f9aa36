-- ===== src/Stbi.antt =====
-- Runtime/Bindings/FFI/stbi/stbi_ffi.cpp: the images that Lua loads, encodes and recolours through
-- stb_image. The library's decoder and encoders are parameters.
pub mod Images
pub mod Encode
pub mod Sizes
pub mod Pixels
