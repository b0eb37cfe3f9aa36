-- ===== src/Examples/Views.antt =====
-- The theorems on sessions of windows and queues and on web views, at concrete data.
use evo_runtime.Common.{ℕ, ◌≡◌, refl, true, none, some, [], ◌∷◌, arith, ◌==◌, if◌then◌else◌}
use evo_runtime.Glfw.Callbacks.{Input, slot}
use evo_runtime.Glfw.Windows.{has_callback}
use evo_runtime.Glfw.Sessions.{
  Session, Action, run, queue_destroy, window_input, register_events, IsSafe,
}
use evo_runtime.Glfw.Sessions.Safety.{registered-IsSafe, run_safely}
use evo_runtime.Webview.Fullscreen.{
  Style, Win32, Documented, Engine, toggle_full_screen, toggle_full_screen_twice,
}

-- Queue 2 is live, and no window has callbacks.
abbrev unregistered : Session
unregistered = record {
  windows = λ w. record { user_pointer = none; callbacks = [] };
  queues = λ q. if q == 2 then some [] else none;
  next = 3;
}

unregistered-IsSafe : IsSafe unregistered
unregistered-IsSafe w k h = cc

abbrev registered : Session
registered = register_events (some 1) (some 2) unregistered

run_safely_example :
    let actions = Action.pop (some 2) ∷ Action.input 1 Input.window_close ∷ Action.create ∷ [] in
    ((s : Session) × (run actions registered ≡ some s) × IsSafe s)
    × ((w q : ℕ) (i : Input) (after : Session)
        → has_callback (registered.windows w).callbacks (slot i) ≡ true
        → (registered.windows w).user_pointer ≡ some q
        → queue_destroy (some q) registered ≡ some after
        → window_input w i after ≡ none)
unfolding register_events
run_safely_example =
    run_safely (Action.pop (some 2) ∷ Action.input 1 Input.window_close ∷ Action.create ∷ [])
      registered (registered-IsSafe 1 2 unregistered unregistered-IsSafe ([], refl))
      (([], refl), λ s events e. (tt, λ t more f. (tt, λ u rest g. tt)))

-- A window as its style and its placement; the monitor is number 9.
abbrev win32 : Win32
win32 = record {
  Window = Style × ℕ;
  Placement = ℕ;
  Rect = ℕ;
  all_frame = 0xCF0000;
  style = λ (s, p). s;
  set_style = λ s (t, p). (s, p);
  get_window_placement = λ (s, p). some p;
  set_window_placement = λ q (s, p). (s, q);
  get_monitor_info = λ w. some 9;
  set_window_pos = λ r (s, p). (s, r);
  rect = λ (s, p). p;
  on_screen = λ p. true;
  frame_changed = λ w. w;
}

win32-Documented : Documented win32
win32-Documented = record {
  style_set = λ s w. refl;
  frame_placement = λ p w. refl;
  style_pos = λ r w. refl;
  style_changed = λ w. refl;
  rect_pos = λ r w h. refl;
  placement_set = λ p w h. refl;
  placement_changed = λ w. refl;
}

abbrev framed : Style × ℕ
framed = (record { frame = 0xC00000; other = 5 }, 7)

abbrev engine : Engine win32
engine = record { window = some framed; window_placement = 0 }

toggle_full_screen_twice_example :
    (full back : Engine win32) × (v u : Style × ℕ) × (toggle_full_screen win32 engine ≡ some full)
    × (full.window ≡ some v)
    × (v.0 ≡ record { frame = 0; other = 5 })
    × (v.1 ≡ 9)
    × (toggle_full_screen win32 full ≡ some back)
    × (back.window ≡ some u)
    × (u.0.frame ≡ 0xCF0000)
    × (some u.1 ≡ some 7)
toggle_full_screen_twice_example =
    toggle_full_screen_twice win32 win32-Documented engine framed 7 9 refl (omega arith) refl refl
      refl
