-- ===== src/Peer.antt =====
-- src/peer/: what two clients say to each other before any message.
pub mod Connection
pub mod Handshake
pub mod Session
mod Tests
