-- ===== src/Download.antt =====
-- src/download: the state of the pieces, and which piece to ask a peer for.
pub mod Blocks
pub mod Pieces
pub mod Peers
pub mod Received
pub mod Existing
pub mod Swarm
mod Tests
