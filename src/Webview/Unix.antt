-- ===== src/Webview/Unix.antt =====
-- `WebviewBrowserEngine` of Runtime/Bindings/FFI/webview/webview_unix.hpp.
use evo_runtime.Common.{ℕ, Bool, true, false, Option, none, some, List, [], ◌∷◌}
use evo_runtime.Common.Int.{ℤ}
use evo_runtime.Webview.Calls.{
  Call, gtk_window_set_icon, g_object_unref, g_warning, g_error_free, gtk_window_fullscreen,
  gtk_window_unfullscreen, Pixbuf, loaded, failed, Icon,
}

-- `main_iteration` is what `gtk_main_iteration_do` returns.
unfoldable pub step : (main_iteration : Bool → ℤ) → (blocking : Bool) → ℤ
step main_iteration blocking = main_iteration blocking

-- `is_fullscreen` is the flag in the state of the GDK window.
unfoldable pub toggle_full_screen :
    (window : Option ℕ) → (is_fullscreen : Bool) → Option (List Call)
toggle_full_screen none is_fullscreen = none
toggle_full_screen (some w) true = some (gtk_window_unfullscreen w ∷ [])
toggle_full_screen (some w) false = some (gtk_window_fullscreen w ∷ [])

unfoldable pub set_app_icon : (window : Option ℕ) → Pixbuf → Icon
set_app_icon none (loaded p) = none
set_app_icon (some w) (loaded p) = some (true, gtk_window_set_icon w p ∷ g_object_unref p ∷ [])
set_app_icon window (failed e) = some (false, g_warning e ∷ g_error_free e ∷ [])
