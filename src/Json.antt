-- ===== src/Json.antt =====
-- The encoder of JSON for Lua: Runtime/Bindings/rapidjson.hpp.
pub mod Values
pub mod Encoder
pub mod Custom
pub mod Library
pub mod Meaning
pub mod Loops
pub mod Completeness
pub mod Soundness
pub mod Agreement
pub mod Levels
pub mod Nesting
pub mod Reading
pub mod Sorting
