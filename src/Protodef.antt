-- ===== src/Protodef.antt =====
-- src/protodef/: what a torrent file says, and what the client makes of it.
pub mod MetaInfo
mod Tests
