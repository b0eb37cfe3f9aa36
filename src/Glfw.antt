-- ===== src/Glfw.antt =====
-- Runtime/Bindings/FFI/glfw/glfw_ffi.cpp: window events that are deferred for Lua.
pub mod Callbacks
pub mod Constants
pub mod Sessions
pub mod Windows
