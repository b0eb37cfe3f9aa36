-- ===== src/Exports/Images.antt =====
-- The tables of functions of Runtime/Bindings/FFI/stbi:
-- the struct of the header, what getExportsTable assigns, and the declaration for Lua.
use evo_runtime.Common.{[], ◌∷◌}
use evo_runtime.Exports.Tables.{StructMembers, Assignments, own}

abbrev pub stbi_exports_table : StructMembers
stbi_exports_table =
    "stbi_version" ∷ "stbi_image_info" ∷ "stbi_load_image" ∷ "stbi_image_free" ∷ "stbi_load_rgb"
    ∷ "stbi_load_rgba" ∷ "stbi_load_monochrome" ∷ "stbi_load_monochrome_with_alpha"
    ∷ "stbi_encode_bmp" ∷ "stbi_encode_png" ∷ "stbi_encode_jpg" ∷ "stbi_encode_tga"
    ∷ "stbi_flip_vertically_on_write" ∷ "stbi_get_required_bmp_size" ∷ "stbi_get_required_png_size"
    ∷ "stbi_get_required_jpg_size" ∷ "stbi_get_required_tga_size" ∷ "stbi_abgr_to_rgba"
    ∷ "stbi_replace_pixel_color_rgba" ∷ []

abbrev pub stbi_exports : Assignments
stbi_exports =
    own "stbi_version"
    ∷ own "stbi_image_info"
    ∷ own "stbi_load_image"
    ∷ own "stbi_image_free"
    ∷ own "stbi_load_rgb"
    ∷ own "stbi_load_rgba"
    ∷ own "stbi_load_monochrome"
    ∷ own "stbi_load_monochrome_with_alpha"
    ∷ own "stbi_encode_bmp"
    ∷ own "stbi_encode_png"
    ∷ own "stbi_encode_jpg"
    ∷ own "stbi_encode_tga"
    ∷ own "stbi_flip_vertically_on_write"
    ∷ own "stbi_get_required_bmp_size"
    ∷ own "stbi_get_required_png_size"
    ∷ own "stbi_get_required_jpg_size"
    ∷ own "stbi_get_required_tga_size"
    ∷ own "stbi_abgr_to_rgba"
    ∷ own "stbi_replace_pixel_color_rgba"
    ∷ []

abbrev pub stbi_cdef : StructMembers
stbi_cdef =
    "stbi_version" ∷ "stbi_image_info" ∷ "stbi_load_image" ∷ "stbi_image_free" ∷ "stbi_load_rgb"
    ∷ "stbi_load_rgba" ∷ "stbi_load_monochrome" ∷ "stbi_load_monochrome_with_alpha"
    ∷ "stbi_encode_bmp" ∷ "stbi_encode_png" ∷ "stbi_encode_jpg" ∷ "stbi_encode_tga"
    ∷ "stbi_flip_vertically_on_write" ∷ "stbi_get_required_bmp_size" ∷ "stbi_get_required_png_size"
    ∷ "stbi_get_required_jpg_size" ∷ "stbi_get_required_tga_size" ∷ "stbi_abgr_to_rgba"
    ∷ "stbi_replace_pixel_color_rgba" ∷ []
