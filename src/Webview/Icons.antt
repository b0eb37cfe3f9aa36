-- ===== src/Webview/Icons.antt =====
-- Icons on all platforms: `setAppIcon` of Runtime/Bindings/FFI/webview/webview_unix.hpp,
-- webview_windows.hpp and webview_mac.hpp.
use evo_runtime.Common.{ℕ, ◌≡◌, refl, ◌↔◌, Bool, true, Option, none, some, List, [], ◌∷◌}
use evo_runtime.Webview.Calls.{
  Call, gtk_window_set_icon, g_object_unref, g_error_free, set_big_icon, set_small_icon,
  set_application_icon_image, Pixbuf, loaded, failed,
}
use evo_runtime.Webview.Unix
use evo_runtime.Webview.Windows
use evo_runtime.Webview.Mac

abbrev pub image_of : Pixbuf → Option ℕ
image_of (loaded p) = some p
image_of (failed e) = none

-- The calls that show an image to the user.
abbrev pub shown : List Call → List ℕ
shown [] = []
shown (gtk_window_set_icon w p ∷ rest) = p ∷ shown rest
shown (set_big_icon w p ∷ rest) = p ∷ shown rest
shown (set_small_icon w p ∷ rest) = p ∷ shown rest
shown (set_application_icon_image a p ∷ rest) = p ∷ shown rest
shown (_ ∷ rest) = shown rest

-- What was allocated by the loader and what was freed.
abbrev pub allocated : Pixbuf → List ℕ
allocated (loaded p) = p ∷ []
allocated (failed e) = e ∷ []

abbrev pub freed : List Call → List ℕ
freed [] = []
freed (g_object_unref p ∷ rest) = p ∷ freed rest
freed (g_error_free e ∷ rest) = e ∷ freed rest
freed (_ ∷ rest) = freed rest

abbrev pub Succeeds : Option ℕ → Bool → Type 0
Succeeds image success = (success ≡ true) ↔ ((i : ℕ) × (image ≡ some i))

-- With a window, setting the icon succeeds on each platform exactly if the image was loaded. On
-- Unix what the loader gave is freed, and the image is shown on Unix and Windows; on the Mac it is
-- not.
pub set_app_icon_lem :
    (w path : ℕ) (pixbuf : Pixbuf) (icon image app : Option ℕ)
    → ((r : Bool × List Call) × (Unix.set_app_icon (some w) pixbuf ≡ some r)
        × Succeeds (image_of pixbuf) r.0
        × (freed r.1 ≡ allocated pixbuf)
        × (r.0 ≡ true → shown r.1 ≡ allocated pixbuf))
      × ((r : Bool × List Call) × (Windows.set_app_icon (some w) icon ≡ some r)
          × Succeeds icon r.0
          × ((i : ℕ) → icon ≡ some i → shown r.1 ≡ i ∷ i ∷ []))
      × ((r : Bool × List Call) × (Mac.set_app_icon path (some (some w)) image app ≡ some r)
          × Succeeds image r.0
          × (shown r.1 ≡ []))
unfolding Unix.set_app_icon Windows.set_app_icon Mac.set_app_icon
set_app_icon_lem w path pixbuf icon image app = (unix pixbuf, windows icon, mac image)
  where
    unix :
        (pixbuf : Pixbuf)
        → (r : Bool × List Call) × (Unix.set_app_icon (some w) pixbuf ≡ some r)
          × Succeeds (image_of pixbuf) r.0
          × (freed r.1 ≡ allocated pixbuf)
          × (r.0 ≡ true → shown r.1 ≡ allocated pixbuf)
    unix (loaded p) = (_, refl, (λ h. (p, refl), λ h. refl), refl, λ h. refl)
    unix (failed e) = (_, refl, (λ h. cc, λ h. cc), refl, λ h. cc)

    windows :
        (icon : Option ℕ)
        → (r : Bool × List Call) × (Windows.set_app_icon (some w) icon ≡ some r)
          × Succeeds icon r.0
          × ((i : ℕ) → icon ≡ some i → shown r.1 ≡ i ∷ i ∷ [])
    windows (some i) = (_, refl, (λ h. (i, refl), λ h. refl), λ j h. cc)
    windows none = (_, refl, (λ h. cc, λ h. cc), λ j h. cc)

    mac :
        (image : Option ℕ)
        → (r : Bool × List Call) × (Mac.set_app_icon path (some (some w)) image app ≡ some r)
          × Succeeds image r.0
          × (shown r.1 ≡ [])
    mac (some i) = (_, refl, (λ h. (i, refl), λ h. refl), refl)
    mac none = (_, refl, (λ h. cc, λ h. cc), refl)
