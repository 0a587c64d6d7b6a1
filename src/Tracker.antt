-- ===== src/Tracker.antt =====
-- src/tracker/: the announces to trackers, over UDP and over HTTP.
pub mod Text
pub mod Udp
pub mod Http
pub mod Announce
pub mod Ascii
mod Tests
