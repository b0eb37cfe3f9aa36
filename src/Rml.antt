-- ===== src/Rml.antt =====
-- Runtime/Bindings/FFI/RmlUi_Renderer_WebGPU.cpp: RmlUi's render interface; and rml/rml_ffi.cpp:
-- the functions by which Lua uses RmlUi.
pub mod Renderer
pub mod Buffers
pub mod Commands
pub mod Handles
pub mod Exports
