-- ===== src/Messages.antt =====
-- internal/message and pkg/message: what is stored of a message.
pub mod State
pub mod Codec
pub mod RoundTrip
