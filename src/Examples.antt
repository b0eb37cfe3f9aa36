-- ===== src/Examples.antt =====
-- Concrete data at which the theorems of the other modules are applied.
mod Server
mod Polling
mod Codec
mod Archives
mod Sound
mod Requests
mod Renderer
mod Images
mod Conversions
mod Encodings
mod Scripts
mod Views
