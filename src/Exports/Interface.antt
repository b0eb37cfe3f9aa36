-- ===== src/Exports/Interface.antt =====
-- The tables of functions of Runtime/Bindings/FFI/rml:
-- the struct of the header, what getExportsTable assigns, and the declaration for Lua.
use evo_runtime.Common.{[], ◌∷◌}
use evo_runtime.Exports.Tables.{StructMembers, Assignments, own}

abbrev pub rml_exports_table : StructMembers
rml_exports_table =
    "rml_version" ∷ "rml_initialise" ∷ "rml_shutdown" ∷ "rml_create_glfw_system_interface"
    ∷ "rml_destroy_glfw_system_interface" ∷ "rml_set_system_interface" ∷ "rml_process_key_callback"
    ∷ "rml_process_char_callback" ∷ "rml_process_cursor_enter_callback"
    ∷ "rml_process_cursor_pos_callback" ∷ "rml_process_mouse_button_callback"
    ∷ "rml_process_scroll_callback" ∷ "rml_process_framebuffer_size_callback"
    ∷ "rml_process_content_scale_callback" ∷ "rml_create_wgpu_render_interface"
    ∷ "rml_destroy_wgpu_render_interface" ∷ "rml_set_render_interface"
    ∷ "rml_release_compiled_geometry" ∷ "rml_document_show" ∷ "rml_context_create"
    ∷ "rml_context_update" ∷ "rml_context_render" ∷ "rml_context_remove"
    ∷ "rml_context_load_document" ∷ "rml_load_font_face" ∷ []

abbrev pub rml_exports : Assignments
rml_exports =
    own "rml_version"
    ∷ own "rml_initialise"
    ∷ own "rml_shutdown"
    ∷ own "rml_create_glfw_system_interface"
    ∷ own "rml_destroy_glfw_system_interface"
    ∷ own "rml_set_system_interface"
    ∷ own "rml_process_key_callback"
    ∷ own "rml_process_char_callback"
    ∷ own "rml_process_cursor_enter_callback"
    ∷ own "rml_process_cursor_pos_callback"
    ∷ own "rml_process_mouse_button_callback"
    ∷ own "rml_process_scroll_callback"
    ∷ own "rml_process_framebuffer_size_callback"
    ∷ own "rml_process_content_scale_callback"
    ∷ own "rml_create_wgpu_render_interface"
    ∷ own "rml_destroy_wgpu_render_interface"
    ∷ own "rml_set_render_interface"
    ∷ own "rml_release_compiled_geometry"
    ∷ own "rml_document_show"
    ∷ own "rml_context_create"
    ∷ own "rml_context_update"
    ∷ own "rml_context_render"
    ∷ own "rml_context_remove"
    ∷ own "rml_context_load_document"
    ∷ own "rml_load_font_face"
    ∷ []

abbrev pub rml_cdef : StructMembers
rml_cdef =
    "rml_version" ∷ "rml_initialise" ∷ "rml_shutdown" ∷ "rml_create_glfw_system_interface"
    ∷ "rml_destroy_glfw_system_interface" ∷ "rml_set_system_interface" ∷ "rml_process_key_callback"
    ∷ "rml_process_char_callback" ∷ "rml_process_cursor_enter_callback"
    ∷ "rml_process_cursor_pos_callback" ∷ "rml_process_mouse_button_callback"
    ∷ "rml_process_scroll_callback" ∷ "rml_process_framebuffer_size_callback"
    ∷ "rml_process_content_scale_callback" ∷ "rml_create_wgpu_render_interface"
    ∷ "rml_destroy_wgpu_render_interface" ∷ "rml_set_render_interface"
    ∷ "rml_release_compiled_geometry" ∷ "rml_document_show" ∷ "rml_context_create"
    ∷ "rml_context_update" ∷ "rml_context_render" ∷ "rml_context_remove"
    ∷ "rml_context_load_document" ∷ "rml_load_font_face" ∷ []
