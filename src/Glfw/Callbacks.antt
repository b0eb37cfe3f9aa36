-- ===== src/Glfw/Callbacks.antt =====
-- Runtime/Bindings/FFI/glfw/glfw_ffi.cpp: what each of the fifteen callbacks pushes, by the
-- arguments that GLFW calls it with.
use evo_runtime.Common.{ℕ}
use evo_runtime.Interop.Events.{EventType, DeferredEvent}

unfoldable pub window_move_callback : ℕ → ℕ → DeferredEvent
window_move_callback screen_x screen_y =
    DeferredEvent.window_move_details
      (record { type = EventType.window_move_event; x = screen_x; y = screen_y })

unfoldable pub window_resize_callback : ℕ → ℕ → DeferredEvent
window_resize_callback width height =
    DeferredEvent.window_resize_details
      (record { type = EventType.window_resize_event; width = width; height = height })

unfoldable pub window_close_callback : DeferredEvent
window_close_callback =
    DeferredEvent.window_close_details (record { type = EventType.window_close_event })

unfoldable pub framebuffer_resize_callback : ℕ → ℕ → DeferredEvent
framebuffer_resize_callback width height =
    DeferredEvent.framebuffer_resize_details
      (record { type = EventType.framebuffer_resize_event; width = width; height = height })

unfoldable pub content_scale_callback : ℕ → ℕ → DeferredEvent
content_scale_callback x_scale y_scale =
    DeferredEvent.content_scale_details
      (record { type = EventType.content_scale_event; x = x_scale; y = y_scale })

unfoldable pub window_refresh_callback : DeferredEvent
window_refresh_callback =
    DeferredEvent.window_refresh_details (record { type = EventType.window_refresh_event })

unfoldable pub window_focus_callback : ℕ → DeferredEvent
window_focus_callback focused =
    DeferredEvent.window_focus_details
      (record { type = EventType.window_focus_event; focused = focused })

unfoldable pub window_iconify_callback : ℕ → DeferredEvent
window_iconify_callback iconified =
    DeferredEvent.window_iconify_details
      (record { type = EventType.window_iconify_event; iconified = iconified })

unfoldable pub window_maximize_callback : ℕ → DeferredEvent
window_maximize_callback maximized =
    DeferredEvent.window_maximize_details
      (record { type = EventType.window_maximize_event; maximized = maximized })

unfoldable pub mouse_button_callback : ℕ → ℕ → ℕ → DeferredEvent
mouse_button_callback button action mods =
    DeferredEvent.mouse_button_details (record {
      type = EventType.mouse_button_event;
      button = button;
      action = action;
      mods = mods;
    })

unfoldable pub cursor_move_callback : ℕ → ℕ → DeferredEvent
cursor_move_callback screen_x screen_y =
    DeferredEvent.cursor_move_details
      (record { type = EventType.cursor_move_event; x = screen_x; y = screen_y })

unfoldable pub cursor_enter_callback : ℕ → DeferredEvent
cursor_enter_callback entered =
    DeferredEvent.cursor_enter_details
      (record { type = EventType.cursor_enter_event; entered = entered })

unfoldable pub scroll_callback : ℕ → ℕ → DeferredEvent
scroll_callback xoffset yoffset =
    DeferredEvent.scroll_details
      (record { type = EventType.scroll_event; x = xoffset; y = yoffset })

unfoldable pub keyboard_callback : ℕ → ℕ → ℕ → ℕ → DeferredEvent
keyboard_callback key scancode action mods = DeferredEvent.key_details (record {
  type = EventType.keyboard_event;
  key = key;
  scancode = scancode;
  action = action;
  mods = mods;
})

unfoldable pub character_input_callback : ℕ → DeferredEvent
character_input_callback codepoint =
    DeferredEvent.character_input_details
      (record { type = EventType.character_input_event; codepoint = codepoint })

-- A call of GLFW, with its arguments.
pub data Input : Type 0 where
  window_move : ℕ → ℕ → Input
  window_resize : ℕ → ℕ → Input
  window_close : Input
  framebuffer_resize : ℕ → ℕ → Input
  content_scale : ℕ → ℕ → Input
  window_refresh : Input
  window_focus : ℕ → Input
  window_iconify : ℕ → Input
  window_maximize : ℕ → Input
  mouse_button : ℕ → ℕ → ℕ → Input
  cursor_move : ℕ → ℕ → Input
  cursor_enter : ℕ → Input
  scroll : ℕ → ℕ → Input
  keyboard : ℕ → ℕ → ℕ → ℕ → Input
  character_input : ℕ → Input

-- The slots of a window that GLFW keeps a callback in.
pub data Slot : Type 0 where
  on_window_move on_window_resize on_window_close on_framebuffer_resize on_content_scale : Slot
  on_window_refresh on_window_focus on_window_iconify on_window_maximize on_mouse_button : Slot
  on_cursor_move on_cursor_enter on_scroll on_keyboard on_character_input : Slot

unfoldable pub slot : Input → Slot
slot (window_move screen_x screen_y) = on_window_move
slot (window_resize width height) = on_window_resize
slot window_close = on_window_close
slot (framebuffer_resize width height) = on_framebuffer_resize
slot (content_scale x_scale y_scale) = on_content_scale
slot window_refresh = on_window_refresh
slot (window_focus focused) = on_window_focus
slot (window_iconify iconified) = on_window_iconify
slot (window_maximize maximized) = on_window_maximize
slot (mouse_button button action mods) = on_mouse_button
slot (cursor_move screen_x screen_y) = on_cursor_move
slot (cursor_enter entered) = on_cursor_enter
slot (scroll xoffset yoffset) = on_scroll
slot (keyboard key scancode action mods) = on_keyboard
slot (character_input codepoint) = on_character_input

unfoldable pub input_event : Input → DeferredEvent
unfolding window_move_callback window_resize_callback window_close_callback
    framebuffer_resize_callback content_scale_callback window_refresh_callback window_focus_callback
    window_iconify_callback window_maximize_callback mouse_button_callback cursor_move_callback
    cursor_enter_callback scroll_callback keyboard_callback character_input_callback
input_event (window_move screen_x screen_y) = window_move_callback screen_x screen_y
input_event (window_resize width height) = window_resize_callback width height
input_event window_close = window_close_callback
input_event (framebuffer_resize width height) = framebuffer_resize_callback width height
input_event (content_scale x_scale y_scale) = content_scale_callback x_scale y_scale
input_event window_refresh = window_refresh_callback
input_event (window_focus focused) = window_focus_callback focused
input_event (window_iconify iconified) = window_iconify_callback iconified
input_event (window_maximize maximized) = window_maximize_callback maximized
input_event (mouse_button button action mods) = mouse_button_callback button action mods
input_event (cursor_move screen_x screen_y) = cursor_move_callback screen_x screen_y
input_event (cursor_enter entered) = cursor_enter_callback entered
input_event (scroll xoffset yoffset) = scroll_callback xoffset yoffset
input_event (keyboard key scancode action mods) = keyboard_callback key scancode action mods
input_event (character_input codepoint) = character_input_callback codepoint
