-- ===== src/Decoder.antt =====
-- decoder_buffer.go.
pub mod Config
pub mod Buffer
pub mod Stream
