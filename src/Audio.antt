-- ===== src/Audio.antt =====
-- Runtime/Bindings/FFI/labsound/labsound_ffi.cpp: audio devices and nodes of LabSound, which is not
-- in the repository.
pub mod Devices
pub mod Rates
pub mod Identifiers
pub mod Nodes
pub mod Handles
