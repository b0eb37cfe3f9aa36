-- ===== src/Exports.antt =====
-- The tables through which Lua calls the runtime: Runtime/Bindings/FFI.
pub mod Tables
pub mod Helpers
pub mod Windows
pub mod Images
pub mod Interface
pub mod Audio
pub mod Server
pub mod Dispatch
