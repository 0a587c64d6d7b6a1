-- ===== src/Storage.antt =====
-- src/storage/files.rs: `FileManager`, which lays the pieces of a torrent over its files.
pub mod Disk
pub mod Files
mod Tests
