-- ===== src/Exports/Dispatch.antt =====
-- Calls from Lua through the tables of Runtime/Bindings/FFI, for every binding but that of WebGPU.
use Prim.Native.String.{String}
use evo_runtime.Common.{ℕ, ◌≡◌, refl, true, some, List, [], ◌∷◌, All}
use evo_runtime.Exports.Tables.{
  StructMembers, Binding, assigned_to, slot, exports_memory, call, same_layout, all_assigned,
  is_consistent, both, same_layout-eq, slot_holds,
}
use evo_runtime.Exports.Helpers.{
  cpp_exports_table, cpp_exports, cpp_cdef, crypto_exports_table, crypto_exports, crypto_cdef,
  curl_exports_table, curl_exports, curl_cdef, iconv_exports_table, iconv_exports, iconv_cdef,
  stduuid_exports_table, stduuid_exports, stduuid_cdef, runtime_exports_table, runtime_exports,
  runtime_cdef,
}
use evo_runtime.Exports.Windows.{
  glfw_exports_table, glfw_exports, glfw_cdef, interop_exports_table, interop_exports, interop_cdef,
  webview_exports_table, webview_exports, webview_cdef,
}
use evo_runtime.Exports.Images.{stbi_exports_table, stbi_exports, stbi_cdef}
use evo_runtime.Exports.Interface.{rml_exports_table, rml_exports, rml_cdef}
use evo_runtime.Exports.Audio.{labsound_exports_table, labsound_exports, labsound_cdef}
use evo_runtime.Exports.Server.{uws_exports_table, uws_exports, uws_cdef}

abbrev binding : StructMembers → List (String × String) → StructMembers → Binding
binding struct assigned declared = record {
  struct = struct;
  assigned = assigned;
  declared = declared;
}

abbrev pub all_bindings : List Binding
all_bindings =
    binding cpp_exports_table cpp_exports cpp_cdef
    ∷ binding crypto_exports_table crypto_exports crypto_cdef
    ∷ binding curl_exports_table curl_exports curl_cdef
    ∷ binding iconv_exports_table iconv_exports iconv_cdef
    ∷ binding stduuid_exports_table stduuid_exports stduuid_cdef
    ∷ binding runtime_exports_table runtime_exports runtime_cdef
    ∷ binding glfw_exports_table glfw_exports glfw_cdef
    ∷ binding interop_exports_table interop_exports interop_cdef
    ∷ binding webview_exports_table webview_exports webview_cdef
    ∷ binding stbi_exports_table stbi_exports stbi_cdef
    ∷ binding rml_exports_table rml_exports rml_cdef
    ∷ binding labsound_exports_table labsound_exports labsound_cdef
    ∷ binding uws_exports_table uws_exports uws_cdef
    ∷ []

consistent_bindings : All (λ b. is_consistent b ≡ true) all_bindings
unfolding is_consistent
consistent_bindings = (
  refl,
  (
    refl,
    (refl, (refl, (refl, (refl, (refl, (refl, (refl, (refl, (refl, (refl, (refl, tt))))))))))),
  ),
)

abbrev Reaches : Binding → Type 0
Reaches b =
    (name : String) (i : ℕ)
    → slot name b.declared ≡ some i
    → (f : String) × (call b name ≡ some f) × (assigned_to name b.assigned ≡ some f)

is_consistent-Reaches : (b : Binding) → is_consistent b ≡ true → Reaches b
unfolding is_consistent call exports_memory
is_consistent-Reaches b h name i found =
    let (same, given) =
      both (same_layout b.struct b.declared) (all_assigned b.struct b.assigned) h in
    let layout : b.struct ≡ b.declared = same_layout-eq b.struct b.declared same in
    let (f, got, assigned) = slot_holds name b.struct b.assigned i (rw layout found) given in
    (f, rw (found, call) (rw got), assigned)

each-Reaches : (l : List Binding) → All (λ b. is_consistent b ≡ true) l → All Reaches l
each-Reaches [] h = tt
each-Reaches (b ∷ rest) h = (is_consistent-Reaches b h.0, each-Reaches rest h.1)

-- In each of the thirteen bindings a call from Lua by any name that is declared there reaches the
-- function that the runtime has assigned to that name, and no null pointer.
pub call_lem :
    All
      (λ b.
        (name : String) (i : ℕ)
        → slot name b.declared ≡ some i
        → (f : String) × (call b name ≡ some f) × (assigned_to name b.assigned ≡ some f))
      all_bindings
call_lem = each-Reaches all_bindings consistent_bindings
