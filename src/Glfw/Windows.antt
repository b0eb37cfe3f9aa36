-- ===== src/Glfw/Windows.antt =====
-- Runtime/Bindings/FFI/glfw/glfw_ffi.cpp: registration, and the way of an event from a window to
-- the queue that its user pointer names. Windows and queues are numbered; GLFW's own part is that
-- it keeps a pointer and a callback for each slot of a window.
use evo_runtime.Common.{
  ℕ, ◌≡◌, refl, Bool, true, false, ◌||◌, Option, none, some, List, [], ◌∷◌, ◌++◌, arith, ◌==◌,
  if◌then◌else◌,
}
use evo_runtime.Interop.Events.{DeferredEvent, event_type, member_type}
use evo_runtime.Glfw.Callbacks.{Input, Slot, slot, input_event}

pub record Window : Type 0 where
  pub user_pointer : Option ℕ
  pub callbacks : List Slot

pub record Desktop : Type 0 where
  pub windows : ℕ → Window
  pub queues : ℕ → List DeferredEvent

abbrev pub update {ℓ} : {A : Type ℓ} → (ℕ → A) → ℕ → A → ℕ → A
update f i a j = if i == j then a else f j

-- `glfwSet...Callback(window, ...)`, as the fifteen functions `glfw_set_..._callback` call it.
unfoldable pub set_callback : Slot → Window → Window
set_callback k w = record w { callbacks = k ∷ w.callbacks }

unfoldable pub register_window : ℕ → Window → Window
unfolding set_callback
register_window queue w = set_callback Slot.on_character_input (
    set_callback Slot.on_keyboard (
      set_callback Slot.on_scroll (
        set_callback Slot.on_cursor_enter (
          set_callback Slot.on_cursor_move (
            set_callback Slot.on_mouse_button (
              set_callback Slot.on_window_maximize (
                set_callback Slot.on_window_iconify (
                  set_callback Slot.on_window_focus (
                    set_callback Slot.on_window_refresh (
                      set_callback Slot.on_content_scale (
                        set_callback Slot.on_framebuffer_resize (
                          set_callback Slot.on_window_close (
                            set_callback Slot.on_window_resize (
                              set_callback Slot.on_window_move
                                (record w { user_pointer = some queue })))))))))))))))

-- A null window or queue is `none`.
unfoldable pub glfw_register_events : Option ℕ → Option ℕ → Desktop → Desktop
unfolding register_window
glfw_register_events none queue d = d
glfw_register_events (some window) none d = d
glfw_register_events (some window) (some queue) d = record d {
  windows = update d.windows window (register_window queue (d.windows window));
}

abbrev slot_code : Slot → ℕ
slot_code Slot.on_window_move = 0
slot_code Slot.on_window_resize = 1
slot_code Slot.on_window_close = 2
slot_code Slot.on_framebuffer_resize = 3
slot_code Slot.on_content_scale = 4
slot_code Slot.on_window_refresh = 5
slot_code Slot.on_window_focus = 6
slot_code Slot.on_window_iconify = 7
slot_code Slot.on_window_maximize = 8
slot_code Slot.on_mouse_button = 9
slot_code Slot.on_cursor_move = 10
slot_code Slot.on_cursor_enter = 11
slot_code Slot.on_scroll = 12
slot_code Slot.on_keyboard = 13
slot_code Slot.on_character_input = 14

abbrev pub has_callback : List Slot → Slot → Bool
has_callback [] k = false
has_callback (j ∷ rest) k = slot_code j == slot_code k || has_callback rest k

-- `queue->push(event)`, through the window's user pointer.
abbrev push_to : Option ℕ → DeferredEvent → Desktop → Option Desktop
push_to none event d = none
push_to (some queue) event d =
    some (record d { queues = update d.queues queue (d.queues queue ++ event ∷ []) })

-- GLFW reports an input to a window. With no callback in the slot nothing happens; a callback that
-- finds a null user pointer dereferences it, which is a fault, `none`.
unfoldable pub glfw_input : ℕ → Input → Desktop → Option Desktop
unfolding slot input_event
glfw_input window i d =
    if has_callback (d.windows window).callbacks (slot i)
    then push_to (d.windows window).user_pointer (input_event i) d
    else some d

every_slot :
    (k : Slot) (queue : ℕ) (w : Window) → has_callback (register_window queue w).callbacks k ≡ true
unfolding register_window
every_slot Slot.on_window_move queue w = refl
every_slot Slot.on_window_resize queue w = refl
every_slot Slot.on_window_close queue w = refl
every_slot Slot.on_framebuffer_resize queue w = refl
every_slot Slot.on_content_scale queue w = refl
every_slot Slot.on_window_refresh queue w = refl
every_slot Slot.on_window_focus queue w = refl
every_slot Slot.on_window_iconify queue w = refl
every_slot Slot.on_window_maximize queue w = refl
every_slot Slot.on_mouse_button queue w = refl
every_slot Slot.on_cursor_move queue w = refl
every_slot Slot.on_cursor_enter queue w = refl
every_slot Slot.on_scroll queue w = refl
every_slot Slot.on_keyboard queue w = refl
every_slot Slot.on_character_input queue w = refl

pub register_window-pointer :
    (queue : ℕ) (w : Window) → (register_window queue w).user_pointer ≡ some queue
unfolding register_window
register_window-pointer queue w = refl

input_event-type : (i : Input) → event_type (input_event i) ≡ member_type (input_event i)
unfolding input_event event_type member_type
input_event-type (Input.window_move screen_x screen_y) = refl
input_event-type (Input.window_resize width height) = refl
input_event-type Input.window_close = refl
input_event-type (Input.framebuffer_resize width height) = refl
input_event-type (Input.content_scale x_scale y_scale) = refl
input_event-type Input.window_refresh = refl
input_event-type (Input.window_focus focused) = refl
input_event-type (Input.window_iconify iconified) = refl
input_event-type (Input.window_maximize maximized) = refl
input_event-type (Input.mouse_button button action mods) = refl
input_event-type (Input.cursor_move screen_x screen_y) = refl
input_event-type (Input.cursor_enter entered) = refl
input_event-type (Input.scroll xoffset yoffset) = refl
input_event-type (Input.keyboard key scancode action mods) = refl
input_event-type (Input.character_input codepoint) = refl

-- Once a window has been registered with a queue, whatever was registered before, every input to
-- the window goes to the back of that queue as one event, whose type is that of its member of the
-- union; no other queue and no window changes.
pub glfw_input-glfw_register_events :
    (window queue : ℕ) (i : Input) (d : Desktop)
    → let r = glfw_register_events (some window) (some queue) d in
      (glfw_input window i r
        ≡ some (record r { queues = update d.queues queue (d.queues queue ++ input_event i ∷ []) }))
      × (event_type (input_event i) ≡ member_type (input_event i))
unfolding glfw_input glfw_register_events
glfw_input-glfw_register_events window queue i d = (
  ground (
    arith,
    every_slot (slot i) queue (d.windows window),
    register_window-pointer queue (d.windows window),
  ),
  input_event-type i,
)
