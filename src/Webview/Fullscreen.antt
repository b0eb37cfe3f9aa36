-- ===== src/Webview/Fullscreen.antt =====
-- Fullscreen mode in Runtime/Bindings/FFI/webview/webview_windows.hpp. A result of the library's
-- `window()` that is no success is `none`, and unwrapping it throws, `none` too.
use evo_runtime.Common.{
  ℕ, ◌≡◌, refl, ap, ◌∙◌, ◌≢◌, Bool, true, false, Option, none, some, arith, ◌==◌, ==_iff,
  if◌then◌else◌,
}

different : (n : ℕ) → n ≢ 0 → (n == 0) ≡ false
different n h = ground arith

-- A window style as the bits inside WS_OVERLAPPEDWINDOW and those outside.
pub record Style : Type 0 where
  pub frame : ℕ
  pub other : ℕ

-- The Windows API. `all_frame` is WS_OVERLAPPEDWINDOW; `rect` is GetWindowRect; `frame_changed` is
-- SetWindowPos with the flags that leave place, size and order alone; `on_screen` says whether a
-- placement leaves a part of the window on the screen.
pub record Win32 : Type 1 where
  pub Window : Type 0
  pub Placement : Type 0
  pub Rect : Type 0
  pub all_frame : ℕ
  pub style : Window → Style
  pub set_style : Style → Window → Window
  pub get_window_placement : Window → Option Placement
  pub set_window_placement : Placement → Window → Window
  pub get_monitor_info : Window → Option Rect
  pub set_window_pos : Rect → Window → Window
  pub rect : Window → Rect
  pub on_screen : Placement → Bool
  pub frame_changed : Window → Window

-- What its documentation says: a style is kept as it was set, and SetWindowPos leaves it alone; a
-- window without a frame gets the rectangle that SetWindowPos is given; a placement on the screen is
-- kept as it was set. SetWindowPlacement sets the show state (WS_VISIBLE, WS_MINIMIZE,
-- WS_MAXIMIZE), of which no bit is one of WS_OVERLAPPEDWINDOW.
pub record Documented (api : Win32) : Type 0 where
  pub style_set : (s : Style) (w : api.Window) → api.style (api.set_style s w) ≡ s
  pub frame_placement :
      (p : api.Placement) (w : api.Window)
      → (api.style (api.set_window_placement p w)).frame ≡ (api.style w).frame
  pub style_pos : (r : api.Rect) (w : api.Window) → api.style (api.set_window_pos r w) ≡ api.style w
  pub style_changed : (w : api.Window) → api.style (api.frame_changed w) ≡ api.style w
  pub rect_pos :
      (r : api.Rect) (w : api.Window)
      → (api.style w).frame ≡ 0
      → api.rect (api.set_window_pos r w) ≡ r
  pub placement_set :
      (p : api.Placement) (w : api.Window)
      → api.on_screen p ≡ true
      → api.get_window_placement (api.set_window_placement p w) ≡ some p
  pub placement_changed :
      (w : api.Window) → api.get_window_placement (api.frame_changed w) ≡ api.get_window_placement w

module _ (api : Win32) where
  -- `WebviewBrowserEngine` on Windows.
  pub record Engine : Type 0 where
    pub window : Option api.Window
    pub window_placement : api.Placement

  unfoldable pub windowed_mode_to_fullscreen : api.Window → Style → Engine → Engine
  windowed_mode_to_fullscreen w style e = elim (api.get_window_placement w) [
    | none ↦ e
    | some placement ↦ elim (api.get_monitor_info w) [
      | none ↦ record e { window_placement = placement }
      | some monitor ↦ record e {
        window = some (
            api.set_window_pos monitor
              (api.set_style (record { frame = 0; other = style.other }) w));
        window_placement = placement;
      }
    ]
  ]

  unfoldable pub fullscreen_mode_to_windowed : api.Window → Style → Engine → Engine
  fullscreen_mode_to_windowed w style e = record e {
    window = some (
        api.frame_changed (
          api.set_window_placement e.window_placement
            (api.set_style (record { frame = api.all_frame; other = style.other }) w)));
  }

  -- `webview_toggle_fullscreen`
  unfoldable pub toggle_full_screen : Engine → Option Engine
  toggle_full_screen e = elim e.window [
    | none ↦ none
    | some w ↦ some (
        if (api.style w).frame == 0
        then fullscreen_mode_to_windowed w (api.style w) e
        else windowed_mode_to_fullscreen w (api.style w) e)
  ]

  module _ (doc : Documented api) where
    to_fullscreen :
        (e : Engine) (w : api.Window) (p : api.Placement) (monitor : api.Rect)
        → e.window ≡ some w
        → (api.style w).frame ≢ 0
        → api.get_window_placement w ≡ some p
        → api.get_monitor_info w ≡ some monitor
        → toggle_full_screen e
          ≡ some (record {
            window = some (
                api.set_window_pos monitor
                  (api.set_style (record { frame = 0; other = (api.style w).other }) w));
            window_placement = p;
          })
    unfolding toggle_full_screen windowed_mode_to_fullscreen
    to_fullscreen e w p monitor a b c d =
        rw (a, toggle_full_screen)
          (rw (different ((api.style w).frame) b) (rw (c, windowed_mode_to_fullscreen) (rw d)))

    to_windowed :
        (e : Engine) (w : api.Window)
        → e.window ≡ some w
        → (api.style w).frame ≡ 0
        → toggle_full_screen e
          ≡ some (record {
            window = some (
                api.frame_changed (
                  api.set_window_placement e.window_placement (
                    api.set_style
                      (record { frame = api.all_frame; other = (api.style w).other })
                      w)));
            window_placement = e.window_placement;
          })
    unfolding toggle_full_screen fullscreen_mode_to_windowed
    to_windowed e w a b = rw (a, toggle_full_screen) (rw ((==_iff (api.style w).frame 0).1 b))

    -- A window with a frame, whose placement can be read and is on the screen, and whose monitor
    -- can be read, covers that monitor after the first toggle, without its frame and with its other
    -- style bits as they were. The second toggle gives it back its placement and sets every bit of
    -- the frame.
    pub toggle_full_screen_twice :
        (e : Engine) (w : api.Window) (p : api.Placement) (monitor : api.Rect)
        → e.window ≡ some w
        → (api.style w).frame ≢ 0
        → api.get_window_placement w ≡ some p
        → api.get_monitor_info w ≡ some monitor
        → api.on_screen p ≡ true
        → (full back : Engine) × (v u : api.Window) × (toggle_full_screen e ≡ some full)
          × (full.window ≡ some v)
          × (api.style v ≡ record { frame = 0; other = (api.style w).other })
          × (api.rect v ≡ monitor)
          × (toggle_full_screen full ≡ some back)
          × (back.window ≡ some u)
          × ((api.style u).frame ≡ api.all_frame)
          × (api.get_window_placement u ≡ some p)
    toggle_full_screen_twice e w p monitor a b c d shown =
        let bare : Style = record { frame = 0; other = (api.style w).other } in
        let v = api.set_window_pos monitor (api.set_style bare w) in
        let style_v : api.style v ≡ bare =
          doc.style_pos monitor (api.set_style bare w) ∙ doc.style_set bare w in
        let framed : Style = record { frame = api.all_frame; other = (api.style v).other } in
        let u = api.frame_changed (api.set_window_placement p (api.set_style framed v)) in
        let full : Engine = record { window = some v; window_placement = p } in
        (
          full,
          record { window = some u; window_placement = p },
          v,
          u,
          to_fullscreen e w p monitor a b c d,
          refl,
          style_v,
          doc.rect_pos monitor (api.set_style bare w)
              (ap (λ (s : Style). s.frame) (doc.style_set bare w)),
          to_windowed full v refl (ap (λ (s : Style). s.frame) style_v),
          refl,
          ap (λ (s : Style). s.frame) (doc.style_changed _)
              ∙ (doc.frame_placement p (api.set_style framed v)
                  ∙ ap (λ (s : Style). s.frame) (doc.style_set framed v)),
          doc.placement_changed _ ∙ doc.placement_set p (api.set_style framed v) shown,
        )
