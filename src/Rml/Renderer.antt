-- ===== src/Rml/Renderer.antt =====
-- Runtime/Bindings/FFI/RmlUi_Renderer_WebGPU.cpp. A command of RmlUi creates its GPU resources at
-- once and pushes an event; Lua does the drawing when it takes the event off the queue. Buffers,
-- textures and geometry are numbered as their addresses are; a texel's or a float's value is a
-- number that is only passed on. A vertex or an index is the list of its bytes. Reading through a
-- pointer to freed memory, or past the end of an array, is a fault, `none`.
use evo_runtime.Common.{
  ℕ, zero, suc, ◌+◌, ◌-◌, ◌*◌, ◌%◌, ◌^◌, Bool, Option, none, some, List, [], ◌∷◌, ◌++◌,
  if◌then◌else◌, ltb, ◌==◌, length, get_elem?,
}
use evo_runtime.Common.Bytes.{Bytes, ◌>>=◌}
use evo_runtime.Interop.Events.{EventType, RmlGeometryInfo, DeferredEvent}

pub data BufferUsage : Type 0 where
  vertex index : BufferUsage

-- What the renderer asks of WebGPU.
pub data GpuCall : Type 0 where
  device_create_buffer : BufferUsage → (size : ℕ) → GpuCall
  queue_write_buffer : (buffer offset : ℕ) → (bytes : Bytes) → (size : ℕ) → GpuCall
  device_create_texture : (width height : ℕ) → GpuCall
  queue_write_texture :
      (texture : ℕ)
      → (bytes : Bytes) → (size bytes_per_row rows_per_image width height : ℕ) → GpuCall

-- The answers of WebGPU, of the allocator, of stb_image and of RmlUi: the handle of what is created
-- after the calls so far; the address of a new object; the pixels of a file, if it can be read, and
-- the dimensions it leaves; the size of a vertex and the identity matrix.
pub record Device : Type 0 where
  pub new_handle : List GpuCall → ℕ
  pub new_address : (ℕ → Option RmlGeometryInfo) → ℕ
  pub load_image : Bytes → ℕ × ℕ → Option Bytes × (ℕ × ℕ)
  pub size_of_vertex : ℕ
  pub identity_matrix : List ℕ

pub record Renderer : Type 0 where
  pub calls : List GpuCall
  pub geometries : ℕ → Option RmlGeometryInfo
  pub events : List DeferredEvent

abbrev pub update {ℓ} : {A : Type ℓ} → (ℕ → A) → ℕ → A → ℕ → A
update f i a j = if i == j then a else f j

-- `m_deferredEventsQueue->push(event)`
abbrev pub push : DeferredEvent → Renderer → Renderer
push event r = record r { events = r.events ++ event ∷ [] }

abbrev pub call : GpuCall → Renderer → Renderer
call c r = record r { calls = r.calls ++ c ∷ [] }

-- A size_t given as an `int` and turned into a size_t again.
abbrev pub through_int : ℕ → ℕ
through_int n = let low = n % 2 ^ 32 in if ltb low (2 ^ 31) then low else low + (2 ^ 64 - 2 ^ 32)

abbrev pub joined : List Bytes → Bytes
joined [] = []
joined (x ∷ rest) = x ++ joined rest

unfoldable pub get_aligned_buffer_size : ℕ → ℕ
get_aligned_buffer_size unaligned_size =
    let num_unaligned_bytes = unaligned_size % 4 in
    let num_required_padding_bytes = (4 - num_unaligned_bytes) % 4 in
    (unaligned_size + num_required_padding_bytes) % 2 ^ 64

module _ (d : Device) where
  unfoldable pub create_vertex_buffer : List Bytes → ℕ → Renderer → ℕ × Renderer
  unfolding get_aligned_buffer_size
  create_vertex_buffer vertices num_vertices r =
      let raw_buffer_size = (through_int num_vertices * d.size_of_vertex) % 2 ^ 64 in
      let vertex_buffer = d.new_handle r.calls in
      let created =
        call
          (GpuCall.device_create_buffer BufferUsage.vertex
            (get_aligned_buffer_size raw_buffer_size))
          r in
      (
        vertex_buffer,
        call (GpuCall.queue_write_buffer vertex_buffer 0 (joined vertices) raw_buffer_size) created,
      )

  unfoldable pub create_index_buffer : List Bytes → ℕ → Renderer → ℕ × Renderer
  unfolding get_aligned_buffer_size
  create_index_buffer indices num_indices r =
      let raw_buffer_size = (through_int num_indices * 4) % 2 ^ 64 in
      let index_buffer = d.new_handle r.calls in
      let created =
        call
          (GpuCall.device_create_buffer BufferUsage.index (get_aligned_buffer_size raw_buffer_size))
          r in
      (
        index_buffer,
        call (GpuCall.queue_write_buffer index_buffer 0 (joined indices) raw_buffer_size) created,
      )

  unfoldable pub create_texture : Bytes → ℕ → ℕ → Renderer → ℕ × Renderer
  create_texture rgba_image_bytes texture_width texture_height r =
      let texture_buffer_size = (texture_width * texture_height * 4) % 2 ^ 64 in
      let texture = d.new_handle r.calls in
      let created = call (GpuCall.device_create_texture texture_width texture_height) r in
      (
        texture,
        call
            (GpuCall.queue_write_texture texture rgba_image_bytes texture_buffer_size
              ((4 * texture_width) % 2 ^ 32) texture_height texture_width texture_height)
            created,
      )

  unfoldable pub new_geometry : List Bytes → List Bytes → Renderer → RmlGeometryInfo × Renderer
  unfolding create_vertex_buffer create_index_buffer
  new_geometry vertices indices r =
      let num_vertices = length vertices in
      let num_indices = length indices in
      let (vertex_buffer, with_vertices) = create_vertex_buffer vertices num_vertices r in
      let (index_buffer, with_indices) = create_index_buffer indices num_indices with_vertices in
      (
        record {
          vertex_buffer = vertex_buffer;
          num_vertices = num_vertices % 2 ^ 32;
          index_buffer = index_buffer;
          num_indices = num_indices % 2 ^ 32;
        },
        with_indices,
      )

  -- `new rml_geometry_info_t`, and the event with a copy of it.
  unfoldable pub announce_geometry : RmlGeometryInfo → Renderer → ℕ × Renderer
  announce_geometry geometry r =
      let address = d.new_address r.geometries in
      (
        address,
        push
            (DeferredEvent.geometry_compilation_details (record {
              type = EventType.geometry_compilation_event;
              compiled_geometry = geometry;
            }))
            (record r { geometries = update r.geometries address (some geometry) }),
      )

  -- The two assertions are compiled out, since the build defines NDEBUG.
  unfoldable pub compile_geometry : List Bytes → List Bytes → Renderer → ℕ × Renderer
  unfolding new_geometry announce_geometry
  compile_geometry vertices indices r =
      let (geometry, with_buffers) = new_geometry vertices indices r in
      announce_geometry geometry with_buffers

  -- What `LoadTexture` does with the result of `stbi_load`.
  unfoldable pub loaded_texture : Option Bytes → ℕ × ℕ → Renderer → (ℕ × (ℕ × ℕ)) × Renderer
  unfolding create_texture
  loaded_texture none texture_dimensions r = ((0, texture_dimensions), r)
  loaded_texture (some rgba_image_bytes) texture_dimensions r =
      let (texture, created) =
        create_texture rgba_image_bytes (texture_dimensions.0 % 2 ^ 32)
          (texture_dimensions.1 % 2 ^ 32) r in
      (
        (texture, texture_dimensions),
        push
            (DeferredEvent.texture_load_details
              (record { type = EventType.texture_load_event; texture = texture }))
            created,
      )

  unfoldable pub load_texture : ℕ × ℕ → Bytes → Renderer → (ℕ × (ℕ × ℕ)) × Renderer
  unfolding loaded_texture
  load_texture texture_dimensions source r =
      let (rgba_image_bytes, loaded_dimensions) = d.load_image source texture_dimensions in
      loaded_texture rgba_image_bytes loaded_dimensions r

  unfoldable pub generate_texture : Bytes → ℕ × ℕ → Renderer → ℕ × Renderer
  unfolding create_texture
  generate_texture rgba_image_bytes source_dimensions r =
      let (texture, created) =
        create_texture rgba_image_bytes (source_dimensions.0 % 2 ^ 32)
          (source_dimensions.1 % 2 ^ 32) r in
      (
        texture,
        push
            (DeferredEvent.texture_generation_details
              (record { type = EventType.texture_generation_event; texture = texture }))
            created,
      )

unfoldable pub render_geometry : ℕ → ℕ × ℕ → ℕ → Renderer → Option Renderer
render_geometry handle translation texture r = r.geometries handle >>= λ geometry. some (
    push
      (DeferredEvent.geometry_render_details (record {
        type = EventType.geometry_render_event;
        compiled_geometry = geometry;
        translate_u = translation.0;
        translate_v = translation.1;
        texture = texture;
      }))
      r)

unfoldable pub release_geometry : ℕ → Renderer → Option Renderer
release_geometry handle r = r.geometries handle >>= λ geometry. some (
    push
      (DeferredEvent.geometry_release_details
        (record { type = EventType.geometry_release_event; compiled_geometry = geometry }))
      r)

unfoldable pub enable_scissor_region : Bool → Renderer → Renderer
enable_scissor_region enabled_flag r =
    push
      (DeferredEvent.scissortest_status_details
        (record { type = EventType.scissortest_status_event; enabled_flag = enabled_flag }))
      r

unfoldable pub set_scissor_region : ℕ × ℕ → ℕ × ℕ → Renderer → Renderer
set_scissor_region position size r =
    push
      (DeferredEvent.scissortest_region_details (record {
        type = EventType.scissortest_region_event;
        u = position.0;
        v = position.1;
        width = size.0;
        height = size.1;
      }))
      r

unfoldable pub release_texture : ℕ → Renderer → Renderer
release_texture texture r =
    push
      (DeferredEvent.texture_release_details
        (record { type = EventType.texture_release_event; texture = texture }))
      r

-- The payload's members in the order the source reads them; `transform[i]` is `get_elem? transform
-- i`.
unfoldable pub transformation : List ℕ → Option DeferredEvent
transformation transform = get_elem? transform 0 >>= λ x1. get_elem? transform 1 >>= λ x2.
    get_elem? transform 2 >>= λ x3. get_elem? transform 4 >>= λ x4. get_elem? transform 5 >>= λ y1.
    get_elem? transform 6 >>= λ y2. get_elem? transform 7 >>= λ y3. get_elem? transform 8 >>= λ y4.
    get_elem? transform 9 >>= λ z1. get_elem? transform 10 >>= λ z2.
    get_elem? transform 11 >>= λ z3. get_elem? transform 12 >>= λ z4.
    get_elem? transform 13 >>= λ w1. get_elem? transform 14 >>= λ w2.
    get_elem? transform 15 >>= λ w3. get_elem? transform 16 >>= λ w4. some (
      DeferredEvent.transformation_update_details (record {
        type = EventType.transformation_update_event;
        x1 = x1;
        x2 = x2;
        x3 = x3;
        x4 = x4;
        y1 = y1;
        y2 = y2;
        y3 = y3;
        y4 = y4;
        z1 = z1;
        z2 = z2;
        z3 = z3;
        z4 = z4;
        w1 = w1;
        w2 = w2;
        w3 = w3;
        w4 = w4;
      }))

-- A null matrix stands for the identity.
unfoldable pub set_transform : Device → Option (List ℕ) → Renderer → Option Renderer
unfolding transformation
set_transform d none r = transformation d.identity_matrix >>= λ event. some (push event r)
set_transform d (some transform) r = transformation transform >>= λ event. some (push event r)

-- `delete geometry` of rml_ffi.cpp, by which Lua frees a released geometry; a null pointer is
-- nothing to free, and one freed before is a fault.
unfoldable pub rml_release_compiled_geometry : ℕ → Renderer → Option Renderer
rml_release_compiled_geometry zero r = some r
rml_release_compiled_geometry (suc handle) r = r.geometries (suc handle) >>= λ geometry.
    some (record r { geometries = update r.geometries (suc handle) none })
