-- ===== src/Protocol.antt =====
-- src/protocol: the peer wire messages, their encoder, and the decoder of a byte stream.
pub mod Messages
pub mod Codec
pub mod Stream
pub mod Decoder
mod Tests
