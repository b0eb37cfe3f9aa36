-- ===== src/Glfw/Constants.antt =====
-- The table of GLFW's constants, glfw/glfw_constants.hpp, and its lookup in glfw_ffi.cpp. The
-- values stand in GLFW's header: they are a parameter, a number for the name of each macro.
use Prim.Native.String.{String}
use mathlib.Core.Path.{◌≡◌, refl}
use mathlib.Core.Option.{Option, none, some}
use mathlib.Core.List.{List, [], ◌∷◌, ◌++◌}
use text.Mathlib.Text.{◌==◌}
use text.Mathlib.TextEquality.{eq_iff}
use evo_runtime.Common.{Bool, true, false, ◌&&◌, if◌then◌else◌, All, Option-cases, inl, inr, ap}
use evo_runtime.Common.Int.{ℤ, pos}

-- A key and the macro whose value it has.
pub record Entry : Type 0 where
  pub name : String
  pub macro : String

abbrev own : String → Entry
own n = record { name = n; macro = n }

abbrev alias : String → String → Entry
alias n m = record { name = n; macro = m }

-- Versions, states, hats and keys.
abbrev key_constants : List Entry
key_constants =
    own "GLFW_VERSION_MAJOR"
    ∷ own "GLFW_VERSION_MINOR"
    ∷ own "GLFW_TRUE"
    ∷ own "GLFW_FALSE"
    ∷ own "GLFW_RELEASE"
    ∷ own "GLFW_PRESS"
    ∷ own "GLFW_REPEAT"
    ∷ own "GLFW_HAT_CENTERED"
    ∷ own "GLFW_HAT_UP"
    ∷ own "GLFW_HAT_RIGHT"
    ∷ own "GLFW_HAT_DOWN"
    ∷ own "GLFW_HAT_LEFT"
    ∷ own "GLFW_HAT_RIGHT_UP"
    ∷ own "GLFW_HAT_RIGHT_DOWN"
    ∷ own "GLFW_HAT_LEFT_UP"
    ∷ own "GLFW_HAT_LEFT_DOWN"
    ∷ own "GLFW_KEY_UNKNOWN"
    ∷ own "GLFW_KEY_SPACE"
    ∷ own "GLFW_KEY_APOSTROPHE"
    ∷ own "GLFW_KEY_COMMA"
    ∷ own "GLFW_KEY_MINUS"
    ∷ own "GLFW_KEY_PERIOD"
    ∷ own "GLFW_KEY_SLASH"
    ∷ own "GLFW_KEY_0"
    ∷ own "GLFW_KEY_1"
    ∷ own "GLFW_KEY_2"
    ∷ own "GLFW_KEY_3"
    ∷ own "GLFW_KEY_4"
    ∷ own "GLFW_KEY_5"
    ∷ own "GLFW_KEY_6"
    ∷ own "GLFW_KEY_7"
    ∷ own "GLFW_KEY_8"
    ∷ own "GLFW_KEY_9"
    ∷ own "GLFW_KEY_SEMICOLON"
    ∷ own "GLFW_KEY_EQUAL"
    ∷ own "GLFW_KEY_A"
    ∷ own "GLFW_KEY_B"
    ∷ own "GLFW_KEY_C"
    ∷ own "GLFW_KEY_D"
    ∷ own "GLFW_KEY_E"
    ∷ own "GLFW_KEY_F"
    ∷ own "GLFW_KEY_G"
    ∷ own "GLFW_KEY_H"
    ∷ own "GLFW_KEY_I"
    ∷ own "GLFW_KEY_J"
    ∷ own "GLFW_KEY_K"
    ∷ own "GLFW_KEY_L"
    ∷ own "GLFW_KEY_M"
    ∷ own "GLFW_KEY_N"
    ∷ own "GLFW_KEY_O"
    ∷ own "GLFW_KEY_P"
    ∷ own "GLFW_KEY_Q"
    ∷ own "GLFW_KEY_R"
    ∷ own "GLFW_KEY_S"
    ∷ own "GLFW_KEY_T"
    ∷ own "GLFW_KEY_U"
    ∷ own "GLFW_KEY_V"
    ∷ own "GLFW_KEY_W"
    ∷ own "GLFW_KEY_X"
    ∷ own "GLFW_KEY_Y"
    ∷ own "GLFW_KEY_Z"
    ∷ own "GLFW_KEY_LEFT_BRACKET"
    ∷ own "GLFW_KEY_BACKSLASH"
    ∷ own "GLFW_KEY_RIGHT_BRACKET"
    ∷ own "GLFW_KEY_GRAVE_ACCENT"
    ∷ own "GLFW_KEY_WORLD_1"
    ∷ own "GLFW_KEY_WORLD_2"
    ∷ own "GLFW_KEY_ESCAPE"
    ∷ own "GLFW_KEY_ENTER"
    ∷ own "GLFW_KEY_TAB"
    ∷ own "GLFW_KEY_BACKSPACE"
    ∷ own "GLFW_KEY_INSERT"
    ∷ own "GLFW_KEY_DELETE"
    ∷ own "GLFW_KEY_RIGHT"
    ∷ own "GLFW_KEY_LEFT"
    ∷ own "GLFW_KEY_DOWN"
    ∷ own "GLFW_KEY_UP"
    ∷ own "GLFW_KEY_PAGE_UP"
    ∷ own "GLFW_KEY_PAGE_DOWN"
    ∷ own "GLFW_KEY_HOME"
    ∷ own "GLFW_KEY_END"
    ∷ own "GLFW_KEY_CAPS_LOCK"
    ∷ own "GLFW_KEY_SCROLL_LOCK"
    ∷ own "GLFW_KEY_NUM_LOCK"
    ∷ own "GLFW_KEY_PRINT_SCREEN"
    ∷ own "GLFW_KEY_PAUSE"
    ∷ own "GLFW_KEY_F1"
    ∷ own "GLFW_KEY_F2"
    ∷ own "GLFW_KEY_F3"
    ∷ own "GLFW_KEY_F4"
    ∷ own "GLFW_KEY_F5"
    ∷ own "GLFW_KEY_F6"
    ∷ own "GLFW_KEY_F7"
    ∷ own "GLFW_KEY_F8"
    ∷ own "GLFW_KEY_F9"
    ∷ own "GLFW_KEY_F10"
    ∷ own "GLFW_KEY_F11"
    ∷ own "GLFW_KEY_F12"
    ∷ own "GLFW_KEY_F13"
    ∷ own "GLFW_KEY_F14"
    ∷ own "GLFW_KEY_F15"
    ∷ own "GLFW_KEY_F16"
    ∷ own "GLFW_KEY_F17"
    ∷ own "GLFW_KEY_F18"
    ∷ own "GLFW_KEY_F19"
    ∷ own "GLFW_KEY_F20"
    ∷ own "GLFW_KEY_F21"
    ∷ own "GLFW_KEY_F22"
    ∷ own "GLFW_KEY_F23"
    ∷ own "GLFW_KEY_F24"
    ∷ own "GLFW_KEY_F25"
    ∷ own "GLFW_KEY_KP_0"
    ∷ own "GLFW_KEY_KP_1"
    ∷ own "GLFW_KEY_KP_2"
    ∷ own "GLFW_KEY_KP_3"
    ∷ own "GLFW_KEY_KP_4"
    ∷ own "GLFW_KEY_KP_5"
    ∷ own "GLFW_KEY_KP_6"
    ∷ own "GLFW_KEY_KP_7"
    ∷ own "GLFW_KEY_KP_8"
    ∷ own "GLFW_KEY_KP_9"
    ∷ own "GLFW_KEY_KP_DECIMAL"
    ∷ own "GLFW_KEY_KP_DIVIDE"
    ∷ own "GLFW_KEY_KP_MULTIPLY"
    ∷ own "GLFW_KEY_KP_SUBTRACT"
    ∷ own "GLFW_KEY_KP_ADD"
    ∷ own "GLFW_KEY_KP_ENTER"
    ∷ own "GLFW_KEY_KP_EQUAL"
    ∷ own "GLFW_KEY_LEFT_SHIFT"
    ∷ own "GLFW_KEY_LEFT_CONTROL"
    ∷ own "GLFW_KEY_LEFT_ALT"
    ∷ own "GLFW_KEY_LEFT_SUPER"
    ∷ own "GLFW_KEY_RIGHT_SHIFT"
    ∷ own "GLFW_KEY_RIGHT_CONTROL"
    ∷ own "GLFW_KEY_RIGHT_ALT"
    ∷ own "GLFW_KEY_RIGHT_SUPER"
    ∷ own "GLFW_KEY_MENU"
    ∷ own "GLFW_KEY_LAST"
    ∷ []

-- Modifiers, mouse buttons, joysticks and gamepads.
abbrev device_constants : List Entry
device_constants =
    own "GLFW_MOD_SHIFT"
    ∷ own "GLFW_MOD_CONTROL"
    ∷ own "GLFW_MOD_ALT"
    ∷ own "GLFW_MOD_SUPER"
    ∷ own "GLFW_MOD_CAPS_LOCK"
    ∷ own "GLFW_MOD_NUM_LOCK"
    ∷ own "GLFW_MOUSE_BUTTON_1"
    ∷ own "GLFW_MOUSE_BUTTON_2"
    ∷ own "GLFW_MOUSE_BUTTON_3"
    ∷ own "GLFW_MOUSE_BUTTON_4"
    ∷ own "GLFW_MOUSE_BUTTON_5"
    ∷ own "GLFW_MOUSE_BUTTON_6"
    ∷ own "GLFW_MOUSE_BUTTON_7"
    ∷ own "GLFW_MOUSE_BUTTON_8"
    ∷ own "GLFW_MOUSE_BUTTON_LAST"
    ∷ own "GLFW_MOUSE_BUTTON_LEFT"
    ∷ own "GLFW_MOUSE_BUTTON_RIGHT"
    ∷ own "GLFW_MOUSE_BUTTON_MIDDLE"
    ∷ own "GLFW_JOYSTICK_1"
    ∷ own "GLFW_JOYSTICK_2"
    ∷ own "GLFW_JOYSTICK_3"
    ∷ own "GLFW_JOYSTICK_4"
    ∷ own "GLFW_JOYSTICK_5"
    ∷ own "GLFW_JOYSTICK_6"
    ∷ own "GLFW_JOYSTICK_7"
    ∷ own "GLFW_JOYSTICK_8"
    ∷ own "GLFW_JOYSTICK_9"
    ∷ own "GLFW_JOYSTICK_10"
    ∷ own "GLFW_JOYSTICK_11"
    ∷ own "GLFW_JOYSTICK_12"
    ∷ own "GLFW_JOYSTICK_13"
    ∷ own "GLFW_JOYSTICK_14"
    ∷ own "GLFW_JOYSTICK_15"
    ∷ own "GLFW_JOYSTICK_16"
    ∷ own "GLFW_JOYSTICK_LAST"
    ∷ own "GLFW_GAMEPAD_BUTTON_A"
    ∷ own "GLFW_GAMEPAD_BUTTON_B"
    ∷ own "GLFW_GAMEPAD_BUTTON_X"
    ∷ own "GLFW_GAMEPAD_BUTTON_Y"
    ∷ own "GLFW_GAMEPAD_BUTTON_LEFT_BUMPER"
    ∷ own "GLFW_GAMEPAD_BUTTON_RIGHT_BUMPER"
    ∷ own "GLFW_GAMEPAD_BUTTON_BACK"
    ∷ own "GLFW_GAMEPAD_BUTTON_START"
    ∷ own "GLFW_GAMEPAD_BUTTON_GUIDE"
    ∷ own "GLFW_GAMEPAD_BUTTON_LEFT_THUMB"
    ∷ own "GLFW_GAMEPAD_BUTTON_RIGHT_THUMB"
    ∷ own "GLFW_GAMEPAD_BUTTON_DPAD_UP"
    ∷ own "GLFW_GAMEPAD_BUTTON_DPAD_RIGHT"
    ∷ own "GLFW_GAMEPAD_BUTTON_DPAD_DOWN"
    ∷ own "GLFW_GAMEPAD_BUTTON_DPAD_LEFT"
    ∷ own "GLFW_GAMEPAD_BUTTON_LAST"
    ∷ alias "GLFW_GAMEPAD_BUTTON_CROSS" "GLFW_GAMEPAD_BUTTON_A"
    ∷ alias "GLFW_GAMEPAD_BUTTON_CIRCLE" "GLFW_GAMEPAD_BUTTON_B"
    ∷ alias "GLFW_GAMEPAD_BUTTON_SQUARE" "GLFW_GAMEPAD_BUTTON_X"
    ∷ alias "GLFW_GAMEPAD_BUTTON_TRIANGLE" "GLFW_GAMEPAD_BUTTON_Y"
    ∷ own "GLFW_GAMEPAD_AXIS_LEFT_X"
    ∷ own "GLFW_GAMEPAD_AXIS_LEFT_Y"
    ∷ own "GLFW_GAMEPAD_AXIS_RIGHT_X"
    ∷ own "GLFW_GAMEPAD_AXIS_RIGHT_Y"
    ∷ own "GLFW_GAMEPAD_AXIS_LEFT_TRIGGER"
    ∷ own "GLFW_GAMEPAD_AXIS_RIGHT_TRIGGER"
    ∷ own "GLFW_GAMEPAD_AXIS_LAST"
    ∷ []

-- Errors, hints, attributes and platforms.
abbrev window_constants : List Entry
window_constants =
    own "GLFW_NO_ERROR"
    ∷ own "GLFW_NOT_INITIALIZED"
    ∷ own "GLFW_NO_CURRENT_CONTEXT"
    ∷ own "GLFW_INVALID_ENUM"
    ∷ own "GLFW_INVALID_VALUE"
    ∷ own "GLFW_OUT_OF_MEMORY"
    ∷ own "GLFW_API_UNAVAILABLE"
    ∷ own "GLFW_VERSION_UNAVAILABLE"
    ∷ own "GLFW_PLATFORM_ERROR"
    ∷ own "GLFW_FORMAT_UNAVAILABLE"
    ∷ own "GLFW_NO_WINDOW_CONTEXT"
    ∷ own "GLFW_CURSOR_UNAVAILABLE"
    ∷ own "GLFW_FEATURE_UNAVAILABLE"
    ∷ own "GLFW_FEATURE_UNIMPLEMENTED"
    ∷ own "GLFW_PLATFORM_UNAVAILABLE"
    ∷ own "GLFW_FOCUSED"
    ∷ own "GLFW_ICONIFIED"
    ∷ own "GLFW_RESIZABLE"
    ∷ own "GLFW_VISIBLE"
    ∷ own "GLFW_DECORATED"
    ∷ own "GLFW_AUTO_ICONIFY"
    ∷ own "GLFW_FLOATING"
    ∷ own "GLFW_MAXIMIZED"
    ∷ own "GLFW_CENTER_CURSOR"
    ∷ own "GLFW_TRANSPARENT_FRAMEBUFFER"
    ∷ own "GLFW_HOVERED"
    ∷ own "GLFW_FOCUS_ON_SHOW"
    ∷ own "GLFW_MOUSE_PASSTHROUGH"
    ∷ own "GLFW_POSITION_X"
    ∷ own "GLFW_POSITION_Y"
    ∷ own "GLFW_RED_BITS"
    ∷ own "GLFW_GREEN_BITS"
    ∷ own "GLFW_BLUE_BITS"
    ∷ own "GLFW_ALPHA_BITS"
    ∷ own "GLFW_DEPTH_BITS"
    ∷ own "GLFW_STENCIL_BITS"
    ∷ own "GLFW_ACCUM_RED_BITS"
    ∷ own "GLFW_ACCUM_GREEN_BITS"
    ∷ own "GLFW_ACCUM_BLUE_BITS"
    ∷ own "GLFW_ACCUM_ALPHA_BITS"
    ∷ own "GLFW_AUX_BUFFERS"
    ∷ own "GLFW_STEREO"
    ∷ own "GLFW_SAMPLES"
    ∷ own "GLFW_SRGB_CAPABLE"
    ∷ own "GLFW_REFRESH_RATE"
    ∷ own "GLFW_DOUBLEBUFFER"
    ∷ own "GLFW_CLIENT_API"
    ∷ own "GLFW_CONTEXT_VERSION_MAJOR"
    ∷ own "GLFW_CONTEXT_VERSION_MINOR"
    ∷ own "GLFW_CONTEXT_REVISION"
    ∷ own "GLFW_CONTEXT_ROBUSTNESS"
    ∷ own "GLFW_OPENGL_FORWARD_COMPAT"
    ∷ own "GLFW_CONTEXT_DEBUG"
    ∷ own "GLFW_OPENGL_DEBUG_CONTEXT"
    ∷ own "GLFW_OPENGL_PROFILE"
    ∷ own "GLFW_CONTEXT_RELEASE_BEHAVIOR"
    ∷ own "GLFW_CONTEXT_NO_ERROR"
    ∷ own "GLFW_CONTEXT_CREATION_API"
    ∷ own "GLFW_SCALE_TO_MONITOR"
    ∷ own "GLFW_COCOA_RETINA_FRAMEBUFFER"
    ∷ own "GLFW_COCOA_FRAME_NAME"
    ∷ own "GLFW_COCOA_GRAPHICS_SWITCHING"
    ∷ own "GLFW_X11_CLASS_NAME"
    ∷ own "GLFW_X11_INSTANCE_NAME"
    ∷ own "GLFW_WIN32_KEYBOARD_MENU"
    ∷ own "GLFW_WAYLAND_APP_ID"
    ∷ own "GLFW_NO_API"
    ∷ own "GLFW_OPENGL_API"
    ∷ own "GLFW_OPENGL_ES_API"
    ∷ own "GLFW_NO_ROBUSTNESS"
    ∷ own "GLFW_NO_RESET_NOTIFICATION"
    ∷ own "GLFW_LOSE_CONTEXT_ON_RESET"
    ∷ own "GLFW_OPENGL_ANY_PROFILE"
    ∷ own "GLFW_OPENGL_CORE_PROFILE"
    ∷ own "GLFW_OPENGL_COMPAT_PROFILE"
    ∷ own "GLFW_CURSOR"
    ∷ own "GLFW_STICKY_KEYS"
    ∷ own "GLFW_STICKY_MOUSE_BUTTONS"
    ∷ own "GLFW_LOCK_KEY_MODS"
    ∷ own "GLFW_RAW_MOUSE_MOTION"
    ∷ own "GLFW_CURSOR_NORMAL"
    ∷ own "GLFW_CURSOR_HIDDEN"
    ∷ own "GLFW_CURSOR_DISABLED"
    ∷ own "GLFW_CURSOR_CAPTURED"
    ∷ own "GLFW_ANY_RELEASE_BEHAVIOR"
    ∷ own "GLFW_RELEASE_BEHAVIOR_FLUSH"
    ∷ own "GLFW_RELEASE_BEHAVIOR_NONE"
    ∷ own "GLFW_NATIVE_CONTEXT_API"
    ∷ own "GLFW_EGL_CONTEXT_API"
    ∷ own "GLFW_OSMESA_CONTEXT_API"
    ∷ own "GLFW_ANGLE_PLATFORM_TYPE_NONE"
    ∷ own "GLFW_ANGLE_PLATFORM_TYPE_OPENGL"
    ∷ own "GLFW_ANGLE_PLATFORM_TYPE_OPENGLES"
    ∷ own "GLFW_ANGLE_PLATFORM_TYPE_D3D9"
    ∷ own "GLFW_ANGLE_PLATFORM_TYPE_D3D11"
    ∷ own "GLFW_ANGLE_PLATFORM_TYPE_VULKAN"
    ∷ own "GLFW_ANGLE_PLATFORM_TYPE_METAL"
    ∷ own "GLFW_WAYLAND_PREFER_LIBDECOR"
    ∷ own "GLFW_WAYLAND_DISABLE_LIBDECOR"
    ∷ own "GLFW_ANY_POSITION"
    ∷ own "GLFW_ARROW_CURSOR"
    ∷ own "GLFW_IBEAM_CURSOR"
    ∷ own "GLFW_CROSSHAIR_CURSOR"
    ∷ own "GLFW_POINTING_HAND_CURSOR"
    ∷ own "GLFW_RESIZE_EW_CURSOR"
    ∷ own "GLFW_RESIZE_NS_CURSOR"
    ∷ own "GLFW_RESIZE_NWSE_CURSOR"
    ∷ own "GLFW_RESIZE_NESW_CURSOR"
    ∷ own "GLFW_RESIZE_ALL_CURSOR"
    ∷ own "GLFW_NOT_ALLOWED_CURSOR"
    ∷ alias "GLFW_HRESIZE_CURSOR" "GLFW_RESIZE_EW_CURSOR"
    ∷ alias "GLFW_VRESIZE_CURSOR" "GLFW_RESIZE_NS_CURSOR"
    ∷ alias "GLFW_HAND_CURSOR" "GLFW_POINTING_HAND_CURSOR"
    ∷ own "GLFW_CONNECTED"
    ∷ own "GLFW_DISCONNECTED"
    ∷ own "GLFW_JOYSTICK_HAT_BUTTONS"
    ∷ own "GLFW_ANGLE_PLATFORM_TYPE"
    ∷ own "GLFW_PLATFORM"
    ∷ own "GLFW_COCOA_CHDIR_RESOURCES"
    ∷ own "GLFW_COCOA_MENUBAR"
    ∷ own "GLFW_X11_XCB_VULKAN_SURFACE"
    ∷ own "GLFW_WAYLAND_LIBDECOR"
    ∷ own "GLFW_ANY_PLATFORM"
    ∷ own "GLFW_PLATFORM_WIN32"
    ∷ own "GLFW_PLATFORM_COCOA"
    ∷ own "GLFW_PLATFORM_WAYLAND"
    ∷ own "GLFW_PLATFORM_X11"
    ∷ own "GLFW_PLATFORM_NULL"
    ∷ own "GLFW_DONT_CARE"
    ∷ []

unfoldable pub glfw_constants : List Entry
glfw_constants = key_constants ++ (device_constants ++ window_constants)

unfoldable pub find_entry : String → List Entry → Option Entry
find_entry key [] = none
find_entry key (e ∷ rest) = if e.name == key then some e else find_entry key rest

abbrev pub not_found : ℤ
not_found = pos 0xdead

unfoldable pub glfw_find_constant : (String → ℤ) → String → ℤ
glfw_find_constant glfw name = elim (find_entry name glfw_constants) [
  | some e ↦ glfw e.macro
  | none ↦ not_found
]

-- Whether each entry of a list is the one that is found under its name.
each_found : List Entry → List Entry → Bool
each_found all [] = true
each_found all (e ∷ rest) =
    elim (find_entry e.name all) [ some f ↦ f.macro == e.macro | none ↦ false ]
    && each_found all rest

all_found : each_found glfw_constants glfw_constants ≡ true
unfolding each_found glfw_constants find_entry
all_found = refl

both : (a b : Bool) → (a && b) ≡ true → (a ≡ true) × (b ≡ true)
both true b h = (refl, h)
both false b h = cc

each_found_sound :
    (glfw : String → ℤ) (all l : List Entry)
    → each_found all l ≡ true
    → All
        (λ e.
          elim (find_entry e.name all) [ some f ↦ glfw f.macro | none ↦ not_found ] ≡ glfw e.macro)
        l
unfolding each_found
each_found_sound glfw all [] h = tt
each_found_sound glfw all (e ∷ rest) h = elim (Option-cases (find_entry e.name all)) [
  | inl missing ↦ cc (rw (missing, each_found) at h)
  | inr (f, found) ↦
      let (same, more) =
        both (f.macro == e.macro) (each_found all rest) (rw (found, each_found) at h) in
      (rw found (ap glfw ((eq_iff f.macro e.macro).0 same)), each_found_sound glfw all rest more)
]

find_entry_missing :
    (name : String) (l : List Entry)
    → All (λ e. (e.name == name) ≡ false) l
    → find_entry name l ≡ none
unfolding find_entry
find_entry_missing name [] h = refl
find_entry_missing name (e ∷ rest) h = rw (h.0) (find_entry_missing name rest h.1)

-- Each of the 329 names gives the value of its macro, whatever GLFW's values are, and any other
-- name gives 0xdead.
pub glfw_find_constant_lem :
    (glfw : String → ℤ)
    → All (λ e. glfw_find_constant glfw e.name ≡ glfw e.macro) glfw_constants
      × ((name : String)
          → All (λ e. (e.name == name) ≡ false) glfw_constants
          → glfw_find_constant glfw name ≡ not_found)
unfolding glfw_find_constant
glfw_find_constant_lem glfw = (
  each_found_sound glfw glfw_constants glfw_constants all_found,
  λ name h. rw (find_entry_missing name glfw_constants h, glfw_find_constant),
)
