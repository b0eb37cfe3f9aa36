-- ===== src/Rml/Buffers.antt =====
-- RmlUi_Renderer_WebGPU.cpp: the sizes of the buffers that are created and written.
use evo_runtime.Common.{
  ℕ, ◌+◌, ◌*◌, ◌%◌, ◌^◌, ◌≤◌, ◌<◌, ◌≡◌, refl, List, [], ◌∷◌, ◌++◌, arith, length, length-append,
  All,
}
use evo_runtime.Common.Bytes.{Bytes}
use evo_runtime.Rml.Renderer.{
  BufferUsage, GpuCall, Device, Renderer, through_int, joined, get_aligned_buffer_size,
  create_vertex_buffer, create_index_buffer,
}

-- The aligned size of a buffer is the least multiple of four that is not less than the size asked
-- for: a multiple of four, not less than that size, and less than four more, where there is room
-- below 2^64.
pub get_aligned_buffer_size_lem :
    (n : ℕ)
    → n + 3 < 2 ^ 64
    → (get_aligned_buffer_size n % 4 ≡ 0)
      × (n ≤ get_aligned_buffer_size n)
      × (get_aligned_buffer_size n < n + 4)
unfolding get_aligned_buffer_size
get_aligned_buffer_size_lem n h = (omega (arith, h), omega (arith, h), omega (arith, h))

length-joined :
    (size : ℕ) (xs : List Bytes)
    → All (λ x. length x ≡ size) xs
    → length (joined xs) ≡ length xs * size
length-joined size [] h = omega arith
length-joined size (x ∷ xs) h =
    ground (arith, length-append x (joined xs), length-joined size xs h.1, h.0)

through_int_id : (n : ℕ) → n < 2 ^ 31 → through_int n ≡ n
through_int_id n h = ground arith

-- What the two calls of a buffer's creation come to: the size is one that the writing fits.
pub Filled : BufferUsage → ℕ → Bytes → Renderer → Renderer → Type 0
Filled usage buffer bytes r after =
    (size : ℕ) × (after.calls
      ≡ (r.calls ++ GpuCall.device_create_buffer usage size ∷ [])
        ++ GpuCall.queue_write_buffer buffer 0 bytes (length bytes) ∷ [])
    × (size % 4 ≡ 0)
    × (length bytes ≤ size)

-- A vertex buffer or an index buffer is created with an aligned size and is then written from its
-- start with exactly the bytes of the vertices or the indices, which fit it, where each vertex has
-- the size of a vertex, each index four bytes, there are fewer than 2^31 of either, and the
-- bytes of the vertices with three more than these stay below 2^64.
pub create_buffers-fit :
    (d : Device) (vertices indices : List Bytes) (r : Renderer)
    → All (λ v. length v ≡ d.size_of_vertex) vertices
    → All (λ i. length i ≡ 4) indices
    → length vertices < 2 ^ 31
    → length indices < 2 ^ 31
    → length vertices * d.size_of_vertex + 3 < 2 ^ 64
    → let v = create_vertex_buffer d vertices (length vertices) r in
      let i = create_index_buffer d indices (length indices) r in
      Filled BufferUsage.vertex v.0 (joined vertices) r v.1
      × Filled BufferUsage.index i.0 (joined indices) r i.1
unfolding create_vertex_buffer create_index_buffer Filled
create_buffers-fit d vertices indices r hv hi nv ni room = (
  (
    get_aligned_buffer_size (length (joined vertices)),
    rw (through_int_id (length vertices) nv, raw_vertices) refl,
    (get_aligned_buffer_size_lem (length (joined vertices))
        (rw (length-joined d.size_of_vertex vertices hv) room)).0,
    (get_aligned_buffer_size_lem (length (joined vertices))
        (rw (length-joined d.size_of_vertex vertices hv) room)).1,
  ),
  (
    get_aligned_buffer_size (length (joined indices)),
    rw (through_int_id (length indices) ni, raw_indices) refl,
    (get_aligned_buffer_size_lem (length (joined indices)) small).0,
    (get_aligned_buffer_size_lem (length (joined indices)) small).1,
  ),
)
  where
    raw_vertices : (length vertices * d.size_of_vertex) % 2 ^ 64 ≡ length (joined vertices)
    raw_vertices = omega (arith, room, length-joined d.size_of_vertex vertices hv)

    raw_indices : (length indices * 4) % 2 ^ 64 ≡ length (joined indices)
    raw_indices = omega (arith, ni, length-joined 4 indices hi)

    small : length (joined indices) + 3 < 2 ^ 64
    small = omega (arith, ni, length-joined 4 indices hi)
