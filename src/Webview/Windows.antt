-- ===== src/Webview/Windows.antt =====
-- Messages and icons of `WebviewBrowserEngine` in Runtime/Bindings/FFI/webview/webview_windows.hpp.
use evo_runtime.Common.{ℕ, Bool, true, false, Option, none, some, List, [], ◌∷◌}
use evo_runtime.Common.Int.{ℤ, pos, negsuc}
use evo_runtime.Webview.Calls.{
  Call, set_big_icon, set_small_icon, translate_message, dispatch_message, run_function,
  delete_function, Icon,
}

-- A message to a window, or to the thread: WM_APP with a function, WM_QUIT, another.
pub data Message : Type 0 where
  to_window : ℕ → Message
  wm_app : (function : ℕ) → Message
  wm_quit : Message
  other : Message

-- `GetMessage` below zero, or a message.
pub data Got : Type 0 where
  get_failed : Got
  got : Message → Got

unfoldable pub handle_message : Message → ℤ × List Call
handle_message (Message.to_window m) = (pos 0, translate_message m ∷ dispatch_message m ∷ [])
handle_message (Message.wm_app f) = (pos 0, run_function f ∷ delete_function f ∷ [])
handle_message Message.wm_quit = (negsuc 0, [])
handle_message Message.other = (pos 0, [])

-- `get_message` blocks, `peek_message` is `none` where there is no message.
unfoldable pub step :
    (get_message : Got) → (peek_message : Option Message) → (blocking : Bool) → ℤ × List Call
step get_failed peek true = (pos 0, [])
step (got m) peek true = handle_message m
step get none false = (pos 0, [])
step get (some m) false = handle_message m

unfoldable pub set_app_icon : (window icon : Option ℕ) → Icon
set_app_icon none icon = none
set_app_icon (some w) (some icon) = some (true, set_big_icon w icon ∷ set_small_icon w icon ∷ [])
set_app_icon (some w) none = some (false, [])
