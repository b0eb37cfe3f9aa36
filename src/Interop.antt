-- ===== src/Interop.antt =====
-- Runtime/Bindings/FFI/interop: the events that C++ defers for Lua, and the queue that carries
-- them.
pub mod Events
pub mod Queue
