-- ===== src/Examples/Renderer.antt =====
-- The theorems of RmlUi_Renderer_WebGPU.cpp, interop_ffi.cpp and glfw_ffi.cpp at concrete data.
use evo_runtime.Common.{
  ℕ, ◌+◌, ◌^◌, ◌%◌, ◌≡◌, refl, true, none, some, List, [], ◌∷◌, arith, length, All,
}
use evo_runtime.Common.Bytes.{Bytes}
use evo_runtime.Interop.Events.{EventType, DeferredEvent, RmlGeometryInfo, event_type, member_type}
use evo_runtime.Glfw.Callbacks.{Input, input_event}
use evo_runtime.Glfw.Windows.{
  Desktop, update, glfw_register_events, glfw_input, glfw_input-glfw_register_events,
}
use evo_runtime.Rml.Renderer.{
  BufferUsage, Device, Renderer, joined, push, create_vertex_buffer, create_index_buffer,
  compile_geometry, release_geometry, rml_release_compiled_geometry,
}
use evo_runtime.Rml.Buffers.{Filled, create_buffers-fit}
use evo_runtime.Rml.Commands.{Command, WellTyped, execute_all, execute_all-WellTyped}
use evo_runtime.Rml.Handles.{Dangling, compile_geometry-lifetime}

abbrev identity : List ℕ
identity = 1 ∷ 0 ∷ 0 ∷ 0 ∷ 0 ∷ 1 ∷ 0 ∷ 0 ∷ 0 ∷ 0 ∷ 1 ∷ 0 ∷ 0 ∷ 0 ∷ 0 ∷ 1 ∷ []

abbrev device : Device
device = record {
  new_handle = λ calls. length calls + 1;
  new_address = λ heap. 5;
  load_image = λ source dimensions. (none, dimensions);
  size_of_vertex = 2;
  identity_matrix = identity;
}

abbrev renderer : Renderer
renderer = record { calls = []; geometries = λ address. none; events = [] }

abbrev vertices : List Bytes
vertices = (1 ∷ 2 ∷ []) ∷ (3 ∷ 4 ∷ []) ∷ (5 ∷ 6 ∷ []) ∷ []

abbrev indices : List Bytes
indices = (0 ∷ 0 ∷ 0 ∷ 0 ∷ []) ∷ (1 ∷ 0 ∷ 0 ∷ 0 ∷ []) ∷ []

create_buffers-fit_example :
    let v = create_vertex_buffer device vertices 3 renderer in
    let i = create_index_buffer device indices 2 renderer in
    Filled BufferUsage.vertex v.0 (joined vertices) renderer v.1
    × Filled BufferUsage.index i.0 (joined indices) renderer i.1
create_buffers-fit_example =
    create_buffers-fit device vertices indices renderer (refl, (refl, (refl, tt)))
      (refl, (refl, tt)) (omega arith) (omega arith) (omega arith)

compile_geometry-lifetime_example :
    (handle : ℕ) × (after : Renderer) × (freed : Renderer) × (geometry : RmlGeometryInfo)
    × (compile_geometry device vertices indices renderer ≡ (handle, after))
    × (geometry.num_vertices ≡ 3 % 2 ^ 32)
    × (geometry.num_indices ≡ 2 % 2 ^ 32)
    × (release_geometry handle after
        ≡ some (
            push
              (DeferredEvent.geometry_release_details
                (record { type = EventType.geometry_release_event; compiled_geometry = geometry }))
              after))
    × (rml_release_compiled_geometry handle after ≡ some freed)
    × Dangling handle freed
compile_geometry-lifetime_example =
    compile_geometry-lifetime device vertices indices renderer (λ heap. omega arith)

abbrev commands : List Command
commands =
    Command.enable_scissor_region_command true
    ∷ Command.load_texture_command (0, 0) []
    ∷ Command.generate_texture_command (1 ∷ 2 ∷ 3 ∷ 4 ∷ []) (1, 1)
    ∷ []

executed : (after : Renderer) × (execute_all device commands renderer ≡ some after)
unfolding execute_all
executed = (_, refl)

execute_all-WellTyped_example : All WellTyped executed.0.events
execute_all-WellTyped_example =
    execute_all-WellTyped device commands renderer executed.0 executed.1 tt

abbrev desktop : Desktop
desktop = record {
  windows = λ window. record { user_pointer = none; callbacks = [] };
  queues = λ queue. [];
}

glfw_input-glfw_register_events_example :
    let r = glfw_register_events (some 1) (some 2) desktop in
    (glfw_input 1 Input.window_close r
      ≡ some (record r { queues = update desktop.queues 2 (input_event Input.window_close ∷ []) }))
    × (event_type (input_event Input.window_close) ≡ member_type (input_event Input.window_close))
glfw_input-glfw_register_events_example =
    glfw_input-glfw_register_events 1 2 Input.window_close desktop
