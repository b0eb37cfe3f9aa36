-- ===== src/Miniz.antt =====
-- Runtime/Bindings/lminiz.cpp: archives and compression for Lua, over the library miniz, which is
-- not in the repository.
pub mod Values
pub mod Readers
pub mod Writers
pub mod Codec
pub mod Registration
pub mod Streams
pub mod Growth
pub mod Entries
pub mod Ending
