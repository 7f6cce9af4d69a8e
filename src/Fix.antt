-- ===== src/Fix.antt =====
-- The protocol layer: messages, their encoding, the framing of a byte stream, and the sessions.
pub mod Tags
pub mod Message
pub mod Codec
pub mod FrameDecoder
pub mod Builders
pub mod Session
pub mod SessionManager
mod Tests
