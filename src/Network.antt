-- ===== src/Network.antt =====
-- lib/network: the downloads of the artifacts of a launch.
mod Tests
pub mod Download
pub mod Call
pub mod Http
pub mod Metadata
