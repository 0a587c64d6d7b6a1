-- ===== src/Structs.antt =====
-- src/structs/: what the client knows of a torrent and of the peers.
pub mod TorrentInfo
pub mod Peer
pub mod Tracker
pub mod Compact
pub mod Spans
mod Tests
