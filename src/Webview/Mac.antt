-- ===== src/Webview/Mac.antt =====
-- `WebviewBrowserEngine` of Runtime/Bindings/FFI/webview/webview_mac.hpp.
use evo_runtime.Common.{ℕ, Bool, true, false, Option, none, some, List, [], ◌∷◌}
use evo_runtime.Common.Int.{ℤ, pos}
use evo_runtime.Webview.Calls.{
  Call, set_represented_url, set_application_icon_image, toggle_fullscreen, send_event, Icon,
}

-- Nothing assigns `m_shouldExit` after its initialisation.
abbrev pub should_exit : ℤ
should_exit = pos 0

-- `next_event` is the event that the application has until the distant future, where the call
-- blocks, or the distant past.
unfoldable pub step : (app : ℕ) → (next_event : Bool → Option ℕ) → (blocking : Bool) → ℤ × List Call
step app next_event blocking = elim (next_event blocking) [
  | none ↦ (should_exit, [])
  | some event ↦ (should_exit, send_event app event ∷ [])
]

unfoldable pub toggle_full_screen : (window : Option ℕ) → Option (List Call)
toggle_full_screen none = none
toggle_full_screen (some w) = some (toggle_fullscreen w ∷ [])

-- The window may be null where unwrapping succeeds.
unfoldable pub set_app_icon :
    (path : ℕ) → (window : Option (Option ℕ)) → (image app : Option ℕ) → Icon
set_app_icon path window none app = some (false, [])
set_app_icon path none (some image) app = none
set_app_icon path (some (some w)) (some image) app = some (true, set_represented_url w path ∷ [])
set_app_icon path (some none) (some image) (some a) =
    some (true, set_application_icon_image a image ∷ [])
set_app_icon path (some none) (some image) none = some (false, [])
