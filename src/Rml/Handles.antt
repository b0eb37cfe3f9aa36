-- ===== src/Rml/Handles.antt =====
-- RmlUi_Renderer_WebGPU.cpp and rml_ffi.cpp: the life of compiled geometry, whose handle is the
-- address of a record that Lua frees, and the elements of a matrix that a transformation event has.
use evo_runtime.Common.{
  ℕ, zero, suc, ◌≡◌, ◌<◌, ◌≤◌, refl, Option, none, some, List, [], ◌∷◌, arith, length, get_elem?,
  ◌%◌, ◌^◌,
}
use evo_runtime.Common.Bytes.{Bytes, ◌>>=◌}
use evo_runtime.Interop.Events.{EventType, DeferredEvent, RmlGeometryInfo}
use evo_runtime.Rml.Renderer.{
  Device, Renderer, update, push, compile_geometry, new_geometry, announce_geometry,
  create_vertex_buffer, create_index_buffer, render_geometry, release_geometry, transformation,
  set_transform, rml_release_compiled_geometry,
}

update_here : {A : Type 0} (f : ℕ → A) (i : ℕ) (a : A) → update f i a i ≡ a
update_here f i a = ground arith

-- Every use of a handle whose geometry has been freed is a fault.
pub Dangling : ℕ → Renderer → Type 0
Dangling handle r =
    ((translation : ℕ × ℕ) (texture : ℕ) → render_geometry handle translation texture r ≡ none)
    × (release_geometry handle r ≡ none)
    × (rml_release_compiled_geometry handle r ≡ none)

free_live :
    (handle : ℕ) (geometry : RmlGeometryInfo) (r : Renderer)
    → 0 < handle
    → r.geometries handle ≡ some geometry
    → (freed : Renderer) × (rml_release_compiled_geometry handle r ≡ some freed)
      × Dangling handle freed
unfolding Dangling rml_release_compiled_geometry render_geometry release_geometry
free_live zero geometry r positive live = absurd (omega (arith, positive))
free_live (suc n) geometry r positive live = (
  record r { geometries = update r.geometries (suc n) none },
  rw live refl,
  (λ translation texture. rw gone refl, rw gone refl, rw gone refl),
)
  where
    gone : update r.geometries (suc n) none (suc n) ≡ none
    gone = update_here r.geometries (suc n) none

-- Geometry that is compiled at an address that is not null can be released by its handle, and the
-- release event carries the numbers of its vertices and indices (as an `int` holds them); after Lua
-- has freed it, to render it, to release it and to free it are faults.
pub compile_geometry-lifetime :
    (d : Device) (vertices indices : List Bytes) (r : Renderer)
    → ((heap : ℕ → Option RmlGeometryInfo) → 0 < d.new_address heap)
    → (handle : ℕ) × (after : Renderer) × (freed : Renderer) × (geometry : RmlGeometryInfo)
      × (compile_geometry d vertices indices r ≡ (handle, after))
      × (geometry.num_vertices ≡ length vertices % 2 ^ 32)
      × (geometry.num_indices ≡ length indices % 2 ^ 32)
      × (release_geometry handle after
          ≡ some (
              push
                (DeferredEvent.geometry_release_details (record {
                  type = EventType.geometry_release_event;
                  compiled_geometry = geometry;
                }))
                after))
      × (rml_release_compiled_geometry handle after ≡ some freed)
      × Dangling handle freed
unfolding compile_geometry new_geometry announce_geometry create_vertex_buffer create_index_buffer
    release_geometry
compile_geometry-lifetime d vertices indices r address = (
  handle,
  (announce_geometry d geometry with_buffers).1,
  died.0,
  geometry,
  refl,
  refl,
  refl,
  rw live refl,
  died.1,
  died.2,
)
  where
    geometry : RmlGeometryInfo
    geometry = (new_geometry d vertices indices r).0

    with_buffers : Renderer
    with_buffers = (new_geometry d vertices indices r).1

    handle : ℕ
    handle = d.new_address r.geometries

    live : update r.geometries handle (some geometry) handle ≡ some geometry
    live = update_here r.geometries handle (some geometry)

    died :
        (freed : Renderer) × (rml_release_compiled_geometry handle
            (announce_geometry d geometry with_buffers).1
          ≡ some freed)
        × Dangling handle freed
    died =
        free_live handle geometry (announce_geometry d geometry with_buffers).1
          (address r.geometries) live

bind_none :
    {A : Type 0} (o : Option ℕ) (f : ℕ → Option A) → ((a : ℕ) → f a ≡ none) → (o >>= f) ≡ none
bind_none none f h = refl
bind_none (some a) f h = h a

get_elem?_beyond : {A : Type 0} (i : ℕ) (xs : List A) → length xs ≤ i → get_elem? xs i ≡ none
get_elem?_beyond i [] h = refl
get_elem?_beyond zero (x ∷ xs) h = absurd (omega (arith, h))
get_elem?_beyond (suc i) (x ∷ xs) h = get_elem?_beyond i xs (omega (arith, h))

transformation_overruns : (t : List ℕ) → length t ≤ 16 → transformation t ≡ none
unfolding transformation
transformation_overruns t h = bind_none (get_elem? t 0) _ λ x1. bind_none (get_elem? t 1) _ λ x2.
    bind_none (get_elem? t 2) _ λ x3. bind_none (get_elem? t 4) _ λ x4.
      bind_none (get_elem? t 5) _ λ y1. bind_none (get_elem? t 6) _ λ y2.
        bind_none (get_elem? t 7) _ λ y3. bind_none (get_elem? t 8) _ λ y4.
          bind_none (get_elem? t 9) _ λ z1. bind_none (get_elem? t 10) _ λ z2.
            bind_none (get_elem? t 11) _ λ z3. bind_none (get_elem? t 12) _ λ z4.
              bind_none (get_elem? t 13) _ λ w1.
                bind_none (get_elem? t 14) _
                  λ w2. bind_none (get_elem? t 15) _ λ w3. rw (get_elem?_beyond 16 t h) refl

-- With a matrix of at most sixteen elements, as every `Matrix4f` has, and with none where the
-- identity has at most sixteen, `SetTransform` reads beyond the matrix's end.
pub set_transform_overruns :
    (d : Device) (transform : List ℕ) (r : Renderer)
    → length transform ≤ 16
    → length d.identity_matrix ≤ 16
    → (set_transform d (some transform) r ≡ none) × (set_transform d none r ≡ none)
unfolding set_transform
set_transform_overruns d transform r h k = (
  rw (transformation_overruns transform h) refl,
  rw (transformation_overruns d.identity_matrix k) refl,
)
