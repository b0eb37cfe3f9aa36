-- ===== src/Webview/Calls.antt =====
-- What the web views of Runtime/Bindings/FFI/webview call of GTK, Windows and the Mac. Handles and
-- functions are numbers, a null handle is `none`. The outer `none` of a result is the exception of
-- unwrapping the library's `window()` where that is no success.
use evo_runtime.Common.{ℕ, Bool, Option, List}

pub data Call : Type 0 where
  gtk_window_set_icon : (window pixels : ℕ) → Call
  g_object_unref : (pixels : ℕ) → Call
  g_warning : (error : ℕ) → Call
  g_error_free : (error : ℕ) → Call
  set_big_icon set_small_icon : (window icon : ℕ) → Call
  set_represented_url : (window path : ℕ) → Call
  set_application_icon_image : (app image : ℕ) → Call
  gtk_window_fullscreen gtk_window_unfullscreen : (window : ℕ) → Call
  toggle_fullscreen : (window : ℕ) → Call
  translate_message dispatch_message : (message : ℕ) → Call
  run_function delete_function : (function : ℕ) → Call
  send_event : (app event : ℕ) → Call

-- `gdk_pixbuf_new_from_file` gives a pixel buffer or an error.
pub data Pixbuf : Type 0 where
  loaded : ℕ → Pixbuf
  failed : ℕ → Pixbuf

abbrev pub Icon : Type 0
Icon = Option (Bool × List Call)
