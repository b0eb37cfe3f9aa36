-- ===== src/Crypto.antt =====
-- Runtime/Bindings/FFI/crypto: Base64 as Argon2 uses it, and the calls of OpenSSL.
pub mod Alphabet
pub mod Base64
pub mod Reference
pub mod RoundTrip
pub mod Foreign
pub mod Bounds
pub mod Kdf
pub mod Evp
