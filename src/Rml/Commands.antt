-- ===== src/Rml/Commands.antt =====
-- RmlUi_Renderer_WebGPU.cpp: what every command of RmlUi does to the queue, and the life of
-- compiled geometry.
use evo_runtime.Common.{
  ℕ, zero, suc, ◌≡◌, refl, ap, sym, ◌∙◌, Bool, Option, none, some, List, [], ◌∷◌, ◌++◌, arith,
  get_elem?, All, All-append, Option-cases, ◌⊎◌, inl, inr,
}
use evo_runtime.Common.Bytes.{Bytes, ◌>>=◌}
use evo_runtime.Interop.Events.{DeferredEvent, event_type, member_type}
use evo_runtime.Rml.Renderer.{
  Device, Renderer, push, compile_geometry, new_geometry, announce_geometry, render_geometry,
  release_geometry, enable_scissor_region, set_scissor_region, load_texture, loaded_texture,
  generate_texture, release_texture, transformation, set_transform, rml_release_compiled_geometry,
  create_vertex_buffer, create_index_buffer, create_texture,
}

-- RmlUi's calls of the render interface, and Lua's of `rml_release_compiled_geometry`.
pub data Command : Type 0 where
  compile_geometry_command : (vertices indices : List Bytes) → Command
  render_geometry_command : (handle : ℕ) → (translation : ℕ × ℕ) → (texture : ℕ) → Command
  release_geometry_command : (handle : ℕ) → Command
  enable_scissor_region_command : Bool → Command
  set_scissor_region_command : (position size : ℕ × ℕ) → Command
  load_texture_command : (texture_dimensions : ℕ × ℕ) → (source : Bytes) → Command
  generate_texture_command : Bytes → (source_dimensions : ℕ × ℕ) → Command
  release_texture_command : (texture : ℕ) → Command
  set_transform_command : Option (List ℕ) → Command
  free_geometry_command : (handle : ℕ) → Command

unfoldable pub execute : Device → Command → Renderer → Option Renderer
execute d (Command.compile_geometry_command vertices indices) r =
    some (compile_geometry d vertices indices r).1
execute d (Command.render_geometry_command handle translation texture) r =
    render_geometry handle translation texture r
execute d (Command.release_geometry_command handle) r = release_geometry handle r
execute d (Command.enable_scissor_region_command enabled_flag) r =
    some (enable_scissor_region enabled_flag r)
execute d (Command.set_scissor_region_command position size) r =
    some (set_scissor_region position size r)
execute d (Command.load_texture_command dimensions source) r =
    some (load_texture d dimensions source r).1
execute d (Command.generate_texture_command bytes dimensions) r =
    some (generate_texture d bytes dimensions r).1
execute d (Command.release_texture_command texture) r = some (release_texture texture r)
execute d (Command.set_transform_command transform) r = set_transform d transform r
execute d (Command.free_geometry_command handle) r = rml_release_compiled_geometry handle r

pub WellTyped : DeferredEvent → Type 0
WellTyped event = event_type event ≡ member_type event

-- The events that a command pushes: none or one, well typed.
pub Pushed : Renderer → Renderer → Type 0
Pushed r after =
    (after.events ≡ r.events)
    ⊎ ((event : DeferredEvent) × (after.events ≡ r.events ++ event ∷ []) × WellTyped event)

some_inj : (x y : Renderer) → some x ≡ some y → x ≡ y
some_inj x y h = ground (arith, h)

one_event :
    (event : DeferredEvent) (r mid after : Renderer)
    → mid.events ≡ r.events ++ event ∷ []
    → some mid ≡ some after
    → WellTyped event
    → Pushed r after
unfolding Pushed
one_event event r mid after e h typed =
    inr (event, ap (λ x. x.events) (sym (some_inj mid after h)) ∙ e, typed)

no_event : (r mid after : Renderer) → mid.events ≡ r.events → some mid ≡ some after → Pushed r after
unfolding Pushed
no_event r mid after e h = inl (ap (λ x. x.events) (sym (some_inj mid after h)) ∙ e)

event_of :
    {A : Type 0} (o : Option A) (event : A → DeferredEvent) (r after : Renderer)
    → (o >>= λ a. some (push (event a) r)) ≡ some after
    → ((a : A) → WellTyped (event a))
    → Pushed r after
event_of none event r after h typed = absurd (ground (arith, h))
event_of (some a) event r after h typed =
    one_event (event a) r (push (event a) r) after refl h (typed a)

Typed : Option DeferredEvent → Type 0
Typed none = Unit
Typed (some event) = WellTyped event

bind_all : (o : Option ℕ) (f : ℕ → Option DeferredEvent) → ((a : ℕ) → Typed (f a)) → Typed (o >>= f)
unfolding Typed
bind_all none f h = tt
bind_all (some a) f h = h a

transformation-Typed : (transform : List ℕ) → Typed (transformation transform)
unfolding WellTyped Typed transformation event_type member_type
transformation-Typed t = bind_all (get_elem? t 0) _ λ x1. bind_all (get_elem? t 1) _ λ x2.
    bind_all (get_elem? t 2) _ λ x3. bind_all (get_elem? t 4) _ λ x4.
      bind_all (get_elem? t 5) _ λ y1. bind_all (get_elem? t 6) _ λ y2.
        bind_all (get_elem? t 7) _ λ y3. bind_all (get_elem? t 8) _ λ y4.
          bind_all (get_elem? t 9) _ λ z1. bind_all (get_elem? t 10) _ λ z2.
            bind_all (get_elem? t 11) _ λ z3. bind_all (get_elem? t 12) _ λ z4.
              bind_all (get_elem? t 13) _ λ w1.
                bind_all (get_elem? t 14) _
                  λ w2. bind_all (get_elem? t 15) _ λ w3. bind_all (get_elem? t 16) _ λ w4. refl

set_transform-Pushed :
    (o : Option DeferredEvent) (r after : Renderer)
    → Typed o
    → (o >>= λ event. some (push event r)) ≡ some after
    → Pushed r after
unfolding Typed
set_transform-Pushed none r after typed h = absurd (ground (arith, h))
set_transform-Pushed (some event) r after typed h =
    one_event event r (push event r) after refl h typed

loaded_texture-Pushed :
    (d : Device) (bytes : Option Bytes) (dimensions : ℕ × ℕ) (r after : Renderer)
    → some (loaded_texture d bytes dimensions r).1 ≡ some after
    → Pushed r after
unfolding WellTyped loaded_texture create_texture event_type member_type
loaded_texture-Pushed d none dimensions r after h = no_event r r after refl h
loaded_texture-Pushed d (some bytes) dimensions r after h = one_event _ r _ after refl h refl

-- Whatever a command does, the queue keeps what it holds, and at its end there is at most one event
-- more, whose type is that of its member of the union.
pub execute-Pushed :
    (d : Device) (c : Command) (r after : Renderer) → execute d c r ≡ some after → Pushed r after
unfolding compile_geometry new_geometry announce_geometry create_vertex_buffer create_index_buffer
    execute WellTyped event_type member_type render_geometry release_geometry enable_scissor_region
    set_scissor_region release_texture generate_texture create_texture load_texture
    rml_release_compiled_geometry set_transform
execute-Pushed d (Command.compile_geometry_command vertices indices) r after h =
    one_event _ r _ after refl h refl
execute-Pushed d (Command.render_geometry_command handle translation texture) r after h =
    event_of (r.geometries handle) _ r after h (λ g. refl)
execute-Pushed d (Command.release_geometry_command handle) r after h =
    event_of (r.geometries handle) _ r after h (λ g. refl)
execute-Pushed d (Command.enable_scissor_region_command enabled_flag) r after h =
    one_event _ r _ after refl h refl
execute-Pushed d (Command.set_scissor_region_command position size) r after h =
    one_event _ r _ after refl h refl
execute-Pushed d (Command.load_texture_command dimensions source) r after h =
    loaded_texture-Pushed d (d.load_image source dimensions).0 (d.load_image source dimensions).1 r
      after h
execute-Pushed d (Command.generate_texture_command bytes dimensions) r after h =
    one_event _ r _ after refl h refl
execute-Pushed d (Command.release_texture_command texture) r after h =
    one_event _ r _ after refl h refl
execute-Pushed d (Command.set_transform_command none) r after h =
    set_transform-Pushed (transformation d.identity_matrix) r after
      (transformation-Typed d.identity_matrix) h
execute-Pushed d (Command.set_transform_command (some transform)) r after h =
    set_transform-Pushed (transformation transform) r after (transformation-Typed transform) h
execute-Pushed d (Command.free_geometry_command zero) r after h = no_event r r after refl h
execute-Pushed d (Command.free_geometry_command (suc handle)) r after h =
    elim (Option-cases (r.geometries (suc handle))) [
      | inl e ↦ absurd (ground (arith, e, h))
      | inr (g, e) ↦ no_event r _ after refl (rw e at h)
    ]

-- A sequence of commands.
unfoldable pub execute_all : Device → List Command → Renderer → Option Renderer
unfolding execute
execute_all d [] r = some r
execute_all d (c ∷ rest) r = execute d c r >>= λ after. execute_all d rest after

Pushed-typed :
    (r after : Renderer) → Pushed r after → All WellTyped r.events → All WellTyped after.events
unfolding Pushed
Pushed-typed r after (inl e) typed = rw e typed
Pushed-typed r after (inr (event, e, t)) typed =
    rw e (All-append WellTyped r.events (event ∷ []) typed (t, tt))

-- A queue of events that are all well typed stays one through any sequence of commands that does
-- not fault, so that Lua reads from each event the member that its type names.
pub execute_all-WellTyped :
    (d : Device) (commands : List Command) (r after : Renderer)
    → execute_all d commands r ≡ some after
    → All WellTyped r.events
    → All WellTyped after.events
unfolding execute_all
execute_all-WellTyped d [] r after h typed = Pushed-typed r after (no_event r r after refl h) typed
execute_all-WellTyped d (c ∷ rest) r after h typed = elim (Option-cases (execute d c r)) [
  | inl e ↦ absurd (ground (arith, e, h))
  | inr (mid, e) ↦
      execute_all-WellTyped d rest mid after (rw e at h)
        (Pushed-typed r mid (execute-Pushed d c r mid e) typed)
]
