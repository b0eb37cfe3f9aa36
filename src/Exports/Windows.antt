-- ===== src/Exports/Windows.antt =====
-- The tables of functions of Runtime/Bindings/FFI/glfw, interop, webview:
-- the struct of the header, what getExportsTable assigns, and the declaration for Lua.
use evo_runtime.Common.{[], ◌∷◌}
use evo_runtime.Exports.Tables.{StructMembers, Assignments, own}

abbrev pub glfw_exports_table : StructMembers
glfw_exports_table =
    "glfw_version" ∷ "glfw_find_constant" ∷ "glfw_create_window_wgpu_surface" ∷ "glfw_init"
    ∷ "glfw_terminate" ∷ "glfw_poll_events" ∷ "glfw_create_window" ∷ "glfw_destroy_window"
    ∷ "glfw_window_should_close" ∷ "glfw_window_hint" ∷ "glfw_set_window_pos"
    ∷ "glfw_get_framebuffer_size" ∷ "glfw_get_window_size" ∷ "glfw_maximize_window"
    ∷ "glfw_restore_window" ∷ "glfw_hide_window" ∷ "glfw_show_window" ∷ "glfw_get_window_attrib"
    ∷ "glfw_set_window_icon" ∷ "glfw_register_events" ∷ "glfw_get_primary_monitor"
    ∷ "glfw_get_monitors" ∷ "glfw_get_window_monitor" ∷ "glfw_set_window_monitor"
    ∷ "glfw_get_video_mode" ∷ "glfw_get_cursor_pos" ∷ "glfw_create_cursor" ∷ "glfw_destroy_cursor"
    ∷ "glfw_set_cursor" ∷ "glfw_get_key" ∷ "glfw_get_mouse_button" ∷ []

abbrev pub glfw_exports : Assignments
glfw_exports =
    own "glfw_version"
    ∷ own "glfw_find_constant"
    ∷ ("glfw_create_window_wgpu_surface", "glfwCreateWindowWGPUSurface")
    ∷ ("glfw_init", "glfwInit")
    ∷ ("glfw_terminate", "glfwTerminate")
    ∷ ("glfw_poll_events", "glfwPollEvents")
    ∷ ("glfw_create_window", "glfwCreateWindow")
    ∷ ("glfw_destroy_window", "glfwDestroyWindow")
    ∷ ("glfw_window_should_close", "glfwWindowShouldClose")
    ∷ ("glfw_window_hint", "glfwWindowHint")
    ∷ ("glfw_set_window_pos", "glfwSetWindowPos")
    ∷ ("glfw_get_framebuffer_size", "glfwGetFramebufferSize")
    ∷ ("glfw_get_window_size", "glfwGetWindowSize")
    ∷ ("glfw_maximize_window", "glfwMaximizeWindow")
    ∷ ("glfw_restore_window", "glfwRestoreWindow")
    ∷ ("glfw_hide_window", "glfwHideWindow")
    ∷ ("glfw_show_window", "glfwShowWindow")
    ∷ ("glfw_get_window_attrib", "glfwGetWindowAttrib")
    ∷ ("glfw_set_window_icon", "glfwSetWindowIcon")
    ∷ own "glfw_register_events"
    ∷ ("glfw_get_primary_monitor", "glfwGetPrimaryMonitor")
    ∷ ("glfw_get_monitors", "glfwGetMonitors")
    ∷ ("glfw_get_window_monitor", "glfwGetWindowMonitor")
    ∷ ("glfw_set_window_monitor", "glfwSetWindowMonitor")
    ∷ ("glfw_get_video_mode", "glfwGetVideoMode")
    ∷ ("glfw_get_cursor_pos", "glfwGetCursorPos")
    ∷ ("glfw_create_cursor", "glfwCreateCursor")
    ∷ ("glfw_set_cursor", "glfwSetCursor")
    ∷ ("glfw_destroy_cursor", "glfwDestroyCursor")
    ∷ ("glfw_get_key", "glfwGetKey")
    ∷ ("glfw_get_mouse_button", "glfwGetMouseButton")
    ∷ []

abbrev pub glfw_cdef : StructMembers
glfw_cdef =
    "glfw_version" ∷ "glfw_find_constant" ∷ "glfw_create_window_wgpu_surface" ∷ "glfw_init"
    ∷ "glfw_terminate" ∷ "glfw_poll_events" ∷ "glfw_create_window" ∷ "glfw_destroy_window"
    ∷ "glfw_window_should_close" ∷ "glfw_window_hint" ∷ "glfw_set_window_pos"
    ∷ "glfw_get_framebuffer_size" ∷ "glfw_get_window_size" ∷ "glfw_maximize_window"
    ∷ "glfw_restore_window" ∷ "glfw_hide_window" ∷ "glfw_show_window" ∷ "glfw_get_window_attrib"
    ∷ "glfw_set_window_icon" ∷ "glfw_register_events" ∷ "glfw_get_primary_monitor"
    ∷ "glfw_get_monitors" ∷ "glfw_get_window_monitor" ∷ "glfw_set_window_monitor"
    ∷ "glfw_get_video_mode" ∷ "glfw_get_cursor_pos" ∷ "glfw_create_cursor" ∷ "glfw_destroy_cursor"
    ∷ "glfw_set_cursor" ∷ "glfw_get_key" ∷ "glfw_get_mouse_button" ∷ []

abbrev pub interop_exports_table : StructMembers
interop_exports_table =
    "queue_create" ∷ "queue_size" ∷ "queue_push_event" ∷ "queue_pop_event" ∷ "queue_destroy" ∷ []

abbrev pub interop_exports : Assignments
interop_exports =
    own "queue_create"
    ∷ own "queue_size"
    ∷ own "queue_push_event"
    ∷ own "queue_pop_event"
    ∷ own "queue_destroy"
    ∷ []

abbrev pub interop_cdef : StructMembers
interop_cdef =
    "queue_create" ∷ "queue_size" ∷ "queue_push_event" ∷ "queue_pop_event" ∷ "queue_destroy" ∷ []

abbrev pub webview_exports_table : StructMembers
webview_exports_table =
    "webview_create" ∷ "webview_destroy" ∷ "webview_toggle_fullscreen" ∷ "webview_run"
    ∷ "webview_run_once" ∷ "webview_terminate" ∷ "webview_dispatch" ∷ "webview_get_window"
    ∷ "webview_set_title" ∷ "webview_set_size" ∷ "webview_navigate" ∷ "webview_set_html"
    ∷ "webview_init" ∷ "webview_eval" ∷ "webview_bind" ∷ "webview_unbind" ∷ "webview_return"
    ∷ "webview_version" ∷ "webview_set_icon" ∷ "webview_get_native_handle" ∷ []

abbrev pub webview_exports : Assignments
webview_exports =
    own "webview_create"
    ∷ own "webview_destroy"
    ∷ own "webview_toggle_fullscreen"
    ∷ own "webview_run"
    ∷ own "webview_run_once"
    ∷ own "webview_terminate"
    ∷ own "webview_dispatch"
    ∷ own "webview_get_window"
    ∷ own "webview_set_title"
    ∷ own "webview_set_size"
    ∷ own "webview_navigate"
    ∷ own "webview_set_html"
    ∷ own "webview_init"
    ∷ own "webview_eval"
    ∷ own "webview_bind"
    ∷ own "webview_unbind"
    ∷ own "webview_return"
    ∷ own "webview_version"
    ∷ own "webview_set_icon"
    ∷ own "webview_get_native_handle"
    ∷ []

abbrev pub webview_cdef : StructMembers
webview_cdef =
    "webview_create" ∷ "webview_destroy" ∷ "webview_toggle_fullscreen" ∷ "webview_run"
    ∷ "webview_run_once" ∷ "webview_terminate" ∷ "webview_dispatch" ∷ "webview_get_window"
    ∷ "webview_set_title" ∷ "webview_set_size" ∷ "webview_navigate" ∷ "webview_set_html"
    ∷ "webview_init" ∷ "webview_eval" ∷ "webview_bind" ∷ "webview_unbind" ∷ "webview_return"
    ∷ "webview_version" ∷ "webview_set_icon" ∷ "webview_get_native_handle" ∷ []
