-- ===== src/Rml/Exports.antt =====
-- Runtime/Bindings/FFI/rml/rml_ffi.cpp: the functions that Lua calls, with their guards and the
-- calls of RmlUi behind them, and the initialisation, which keeps Lua's `print`. A pointer is a
-- number, and `none` where it is null; floats and the interfaces' addresses are only passed on.
use evo_runtime.Common.{ℕ, ◌≡◌, ◌∙◌, Bool, true, false, Option, none, some, List, [], ◌∷◌}
use evo_runtime.Common.Bytes.{Bytes, codes, c_string}
use evo_runtime.Common.Int.{ℤ}

-- What RmlGLFW is told about a window's input.
pub data Input (F : Type 0) : Type 0 where
  key : ℤ → ℤ → ℤ → Input F
  char : ℕ → Input F
  cursor_enter : ℤ → Input F
  cursor_pos : ℕ → F → F → ℤ → Input F
  mouse_button : ℤ → ℤ → ℤ → Input F
  scroll : F → ℤ → Input F
  framebuffer_size : ℤ → ℤ → Input F
  content_scale : F → Input F

pub data RmlCall (F : Type 0) : Type 0 where
  sets_system_interface sets_render_interface : ℕ → RmlCall F
  creates_render_interface : ℕ → ℕ → RmlCall F
  loads_font_face : Bytes → Bool → RmlCall F
  creates_context : Bytes → ℕ → ℕ → RmlCall F
  loads_document : ℕ → Bytes → RmlCall F
  shows updates renders : ℕ → RmlCall F
  removes_context : Bytes → RmlCall F
  processes : ℕ → Input F → RmlCall F

-- RmlUi's answers.
pub record Rml (F : Type 0) : Type 0 where
  pub font_engine : Bool
  pub render_interface : ℕ
  pub font_loaded : Bytes → Bool → Bool
  pub context : Bytes → Option ℕ
  pub document : ℕ → Bytes → Option ℕ
  pub processed : ℕ → Input F → Bool

module _ {F : Type 0} (rml : Rml F) where
  unfoldable pub rml_set_system_interface : Option ℕ → List (RmlCall F)
  rml_set_system_interface none = []
  rml_set_system_interface (some i) = RmlCall.sets_system_interface i ∷ []

  unfoldable pub rml_create_wgpu_render_interface :
      Option ℕ → Option ℕ → Option ℕ × List (RmlCall F)
  rml_create_wgpu_render_interface (some device) (some queue) =
      (some rml.render_interface, RmlCall.creates_render_interface device queue ∷ [])
  rml_create_wgpu_render_interface device queue = (none, [])

  unfoldable pub rml_set_render_interface : Option ℕ → List (RmlCall F)
  rml_set_render_interface none = []
  rml_set_render_interface (some i) = RmlCall.sets_render_interface i ∷ []

  -- The guard on the font engine, and then that on the path.
  abbrev pub load_font : Bool → Option Bytes → Bool → Bool × List (RmlCall F)
  load_font true (some path) is_fallback_face = (
    rml.font_loaded (c_string path) is_fallback_face,
    RmlCall.loads_font_face (c_string path) is_fallback_face ∷ [],
  )
  load_font ready path is_fallback_face = (false, [])

  unfoldable pub rml_load_font_face : Option Bytes → Bool → Bool × List (RmlCall F)
  rml_load_font_face file_path is_fallback_face =
      load_font rml.font_engine file_path is_fallback_face

  unfoldable pub rml_context_create : Option Bytes → ℕ → ℕ → Option ℕ × List (RmlCall F)
  rml_context_create none width height = (none, [])
  rml_context_create (some name) width height =
      (rml.context (c_string name), RmlCall.creates_context (c_string name) width height ∷ [])

  unfoldable pub rml_context_load_document : Option ℕ → Option Bytes → Option ℕ × List (RmlCall F)
  rml_context_load_document (some c) (some path) =
      (rml.document c (c_string path), RmlCall.loads_document c (c_string path) ∷ [])
  rml_context_load_document context file_path = (none, [])

  unfoldable pub rml_document_show : Option ℕ → List (RmlCall F)
  rml_document_show none = []
  rml_document_show (some d) = RmlCall.shows d ∷ []

  unfoldable pub rml_context_update : Option ℕ → List (RmlCall F)
  rml_context_update none = []
  rml_context_update (some c) = RmlCall.updates c ∷ []

  unfoldable pub rml_context_render : Option ℕ → List (RmlCall F)
  rml_context_render none = []
  rml_context_render (some c) = RmlCall.renders c ∷ []

  unfoldable pub rml_context_remove : Option Bytes → List (RmlCall F)
  rml_context_remove none = []
  rml_context_remove (some name) = RmlCall.removes_context (c_string name) ∷ []

  -- The six callbacks that return whether the input is still to be handled, which it is where there
  -- is no context; the two others return nothing.
  unfoldable pub rml_process_callback : Option ℕ → Input F → Bool × List (RmlCall F)
  rml_process_callback none input = (true, [])
  rml_process_callback (some c) input = (rml.processed c input, RmlCall.processes c input ∷ [])

-- Lua's tables of globals and of the registry, over Lua's states and values, and what
-- `Rml::Initialise` and `Rml::Lua::Initialise` do.
pub record Scripting (S V : Type 0) : Type 0 where
  pub getglobal : Bytes → S → V
  pub setglobal : Bytes → V → S → S
  pub getregistry : Bytes → S → V
  pub setregistry : Bytes → V → S → S
  pub nil : V
  pub initialise : Bool
  pub initialise_lua : S → S

abbrev pub print : Bytes
print = codes "print"

abbrev pub original_print : Bytes
original_print = codes "original_print"

module _ {S V : Type 0} (lua : Scripting S V) where
  unfoldable pub rml_initialise : S → Bool × S
  rml_initialise s =
      let kept = lua.setregistry original_print (lua.getglobal print s) s in
      let started = lua.initialise_lua kept in
      let restored = lua.setglobal print (lua.getregistry original_print started) started in
      (lua.initialise, lua.setregistry original_print lua.nil restored)

  -- Whatever RmlUi makes of Lua's globals, `print` is afterwards what it was before, and nothing is
  -- kept of it in the registry, if RmlUi leaves the registry's entry alone, a variable that is set
  -- has the value it was set to, and the registry and the globals do not share a table.
  pub rml_initialise-print :
      (s : S)
      → ((name : Bytes) (v : V) (t : S) → lua.getglobal name (lua.setglobal name v t) ≡ v)
      → ((name : Bytes) (v : V) (t : S) → lua.getregistry name (lua.setregistry name v t) ≡ v)
      → ((name key : Bytes) (v : V) (t : S)
          → lua.getglobal name (lua.setregistry key v t) ≡ lua.getglobal name t)
      → ((t : S)
          → lua.getregistry original_print (lua.initialise_lua t)
            ≡ lua.getregistry original_print t)
      → (lua.getglobal print (rml_initialise s).1 ≡ lua.getglobal print s)
        × (lua.getregistry original_print (rml_initialise s).1 ≡ lua.nil)
  unfolding rml_initialise
  rml_initialise-print s global registry apart untouched = (
    apart print original_print lua.nil _
        ∙ (global print _ _ ∙ (untouched _ ∙ registry original_print (lua.getglobal print s) s)),
    registry original_print lua.nil _,
  )
